-- ===== src/Line/Words.antt =====
-- The words of the command language of src/LineProcessor.cpp, as lists of character codes.
use zekvok.Prelude.{ℕ, List, [], ◌∷◌}

-- open
abbrev pub word_open : List ℕ
word_open = 111 ∷ 112 ∷ 101 ∷ 110 ∷ []

-- add
abbrev pub word_add : List ℕ
word_add = 97 ∷ 100 ∷ 100 ∷ []

-- exclude
abbrev pub word_exclude : List ℕ
word_exclude = 101 ∷ 120 ∷ 99 ∷ 108 ∷ 117 ∷ 100 ∷ 101 ∷ []

-- backup
abbrev pub word_backup : List ℕ
word_backup = 98 ∷ 97 ∷ 99 ∷ 107 ∷ 117 ∷ 112 ∷ []

-- restore
abbrev pub word_restore : List ℕ
word_restore = 114 ∷ 101 ∷ 115 ∷ 116 ∷ 111 ∷ 114 ∷ 101 ∷ []

-- select
abbrev pub word_select : List ℕ
word_select = 115 ∷ 101 ∷ 108 ∷ 101 ∷ 99 ∷ 116 ∷ []

-- show
abbrev pub word_show : List ℕ
word_show = 115 ∷ 104 ∷ 111 ∷ 119 ∷ []

-- if
abbrev pub word_if : List ℕ
word_if = 105 ∷ 102 ∷ []

-- set
abbrev pub word_set : List ℕ
word_set = 115 ∷ 101 ∷ 116 ∷ []

-- verify
abbrev pub word_verify : List ℕ
word_verify = 118 ∷ 101 ∷ 114 ∷ 105 ∷ 102 ∷ 121 ∷ []

-- generate
abbrev pub word_generate : List ℕ
word_generate = 103 ∷ 101 ∷ 110 ∷ 101 ∷ 114 ∷ 97 ∷ 116 ∷ 101 ∷ []

-- quit
abbrev pub word_quit : List ℕ
word_quit = 113 ∷ 117 ∷ 105 ∷ 116 ∷ []

-- extension
abbrev pub word_extension : List ℕ
word_extension = 101 ∷ 120 ∷ 116 ∷ 101 ∷ 110 ∷ 115 ∷ 105 ∷ 111 ∷ 110 ∷ []

-- path
abbrev pub word_path : List ℕ
word_path = 112 ∷ 97 ∷ 116 ∷ 104 ∷ []

-- name
abbrev pub word_name : List ℕ
word_name = 110 ∷ 97 ∷ 109 ∷ 101 ∷ []

-- version
abbrev pub word_version : List ℕ
word_version = 118 ∷ 101 ∷ 114 ∷ 115 ∷ 105 ∷ 111 ∷ 110 ∷ []

-- keypair
abbrev pub word_keypair : List ℕ
word_keypair = 107 ∷ 101 ∷ 121 ∷ 112 ∷ 97 ∷ 105 ∷ 114 ∷ []

-- dependencies
abbrev pub word_dependencies : List ℕ
word_dependencies = 100 ∷ 101 ∷ 112 ∷ 101 ∷ 110 ∷ 100 ∷ 101 ∷ 110 ∷ 99 ∷ 105 ∷ 101 ∷ 115 ∷ []

-- versions
abbrev pub word_versions : List ℕ
word_versions = 118 ∷ 101 ∷ 114 ∷ 115 ∷ 105 ∷ 111 ∷ 110 ∷ 115 ∷ []

-- version_count
abbrev pub word_version_count : List ℕ
word_version_count = 118 ∷ 101 ∷ 114 ∷ 115 ∷ 105 ∷ 111 ∷ 110 ∷ 95 ∷ 99 ∷ 111 ∷ 117 ∷ 110 ∷ 116 ∷ []

-- paths
abbrev pub word_paths : List ℕ
word_paths = 112 ∷ 97 ∷ 116 ∷ 104 ∷ 115 ∷ []

-- version_summary
abbrev pub word_version_summary : List ℕ
word_version_summary =
    118 ∷ 101 ∷ 114 ∷ 115 ∷ 105 ∷ 111 ∷ 110 ∷ 95 ∷ 115 ∷ 117 ∷ 109 ∷ 109 ∷ 97 ∷ 114 ∷ 121 ∷ []

-- use_snapshots
abbrev pub word_use_snapshots : List ℕ
word_use_snapshots = 117 ∷ 115 ∷ 101 ∷ 95 ∷ 115 ∷ 110 ∷ 97 ∷ 112 ∷ 115 ∷ 104 ∷ 111 ∷ 116 ∷ 115 ∷ []

-- change_criterium
abbrev pub word_change_criterium : List ℕ
word_change_criterium =
    99 ∷ 104 ∷ 97 ∷ 110 ∷ 103 ∷ 101 ∷ 95 ∷ 99 ∷ 114 ∷ 105 ∷ 116 ∷ 101 ∷ 114 ∷ 105 ∷ 117 ∷ 109 ∷ []

-- files
abbrev pub word_files : List ℕ
word_files = 102 ∷ 105 ∷ 108 ∷ 101 ∷ 115 ∷ []

-- dirs
abbrev pub word_dirs : List ℕ
word_dirs = 100 ∷ 105 ∷ 114 ∷ 115 ∷ []

-- all
abbrev pub word_all : List ℕ
word_all = 97 ∷ 108 ∷ 108 ∷ []

-- archive_flag
abbrev pub word_archive_flag : List ℕ
word_archive_flag = 97 ∷ 114 ∷ 99 ∷ 104 ∷ 105 ∷ 118 ∷ 101 ∷ 95 ∷ 102 ∷ 108 ∷ 97 ∷ 103 ∷ []

-- size
abbrev pub word_size : List ℕ
word_size = 115 ∷ 105 ∷ 122 ∷ 101 ∷ []

-- date
abbrev pub word_date : List ℕ
word_date = 100 ∷ 97 ∷ 116 ∷ 101 ∷ []

-- hash
abbrev pub word_hash : List ℕ
word_hash = 104 ∷ 97 ∷ 115 ∷ 104 ∷ []

-- hash_auto
abbrev pub word_hash_auto : List ℕ
word_hash_auto = 104 ∷ 97 ∷ 115 ∷ 104 ∷ 95 ∷ 97 ∷ 117 ∷ 116 ∷ 111 ∷ []

-- true
abbrev pub word_true : List ℕ
word_true = 116 ∷ 114 ∷ 117 ∷ 101 ∷ []

-- false
abbrev pub word_false : List ℕ
word_false = 102 ∷ 97 ∷ 108 ∷ 115 ∷ 101 ∷ []

-- full
abbrev pub word_full : List ℕ
word_full = 102 ∷ 117 ∷ 108 ∷ 108 ∷ []
