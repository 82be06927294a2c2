-- ===== src/Line/Selected.antt =====
-- The version that src/LineProcessor.cpp has selected, over all the lines that it processes.
use zekvok.Prelude.{
  ℕ, suc, ◌+◌, ◌≡◌, refl, ap, ◌∙◌, sym, subst, Bool, true, false, not, Option, none, some, List, [],
  ◌∷◌, ◌++◌, arith, ◌==◌, if◌then◌else◌, inl, inr, ◌⊎◌,
}
use zekvok.Exception.{Exception, is_fatal, Result, ok, throw, ◌>>=◌}
use zekvok.Backup.Versions.{
  ℤ, pos, version_exists, below, back_or, get_version_count, AnyFrom, version_exists-AnyFrom,
}
use zekvok.Utility.Text.{ensure_last_character_is_not_backslash}
use zekvok.Line.System.{
  String, System, LineProcessor, Effect, Outcome, change_system, count_of, existing_version,
  set_keypair, add_source, add_ignored_name, add_ignored_extension, add_ignored_path,
  set_use_snapshots, set_change_criterium,
}
use zekvok.Line.Process.{
  Calls, latest, minus_one, find_entry, dispatch, select, chosen, try_key, process_open,
  process_add, process_backup, process_restore, process_select_keypair, process_exclude_name,
  process_exclude_extension, process_exclude_path, process_select_version,
  process_set_use_snapshots, process_set_change_criterium, process_verify, process_generate_keypair,
}
use zekvok.Line.Dispatch.{
  Command, c_open, c_add, c_exclude, c_backup, c_restore, c_select, c_show, c_if, c_set, c_verify,
  c_generate, Excluded, x_extension, x_path, x_name, Selected, s_version, s_keypair, Shown,
  w_dependencies, w_versions, w_version_count, w_paths, w_version_summary, Setting, t_use_snapshots,
  t_change_criterium, commands, process_show_one, process_exclude_one, process_select_one,
  process_set_one, process_exclude, process_select, process_show, process_set, process_generate,
  process_line, process, run_command, run_alone, or_unchanged,
}

-- The selected version is one that the system says it has, or the system has none.
abbrev pub SelectedIn : Option System → ℤ → Type 0
SelectedIn none v = Unit {0}
SelectedIn (some s) v = (s.versions ≡ []) ⊎ (version_exists s.versions v ≡ true)

abbrev pub IsSelected : LineProcessor → Type 0
IsSelected p = SelectedIn p.backup_system p.selected_version

Keeps : Outcome → Type 0
Keeps (throw e) = Unit {0}
Keeps (ok r) = IsSelected r.0

failed : (e : Exception) → Keeps (throw e)
unfolding Keeps
failed e = tt

kept : (r : LineProcessor × List Effect) → IsSelected r.0 → Keeps (ok r)
unfolding Keeps
kept r h = h

unkept : (r : LineProcessor × List Effect) → Keeps (ok r) → IsSelected r.0
unfolding Keeps
unkept r k = k

ending :
    (o : Outcome) (effects : List Effect)
    → Keeps o
    → Keeps (o >>= λ later. ok (later.0, effects ++ later.1))
unfolding Keeps
ending (throw e) effects k = tt
ending (ok r) effects k = k

any_back : (versions : List ℕ) (x : ℕ) → AnyFrom (pos (back_or x versions)) (x ∷ versions)
unfolding back_or below
any_back [] x = inl (ground arith)
any_back (y ∷ versions) x = inr (any_back versions y)

minus_one-back : (n : ℕ) → minus_one (n + 1) ≡ pos n
unfolding minus_one
minus_one-back n = ap minus_one (let e : n + 1 ≡ suc n = omega arith in e)

opened :
    (versions : List ℕ) (s : System)
    → SelectedIn
        (some (record s { versions = versions }))
        (latest (record s { versions = versions }))
unfolding latest get_version_count
opened [] s = inl refl
opened (x ∷ versions) s = inr (
    ap (version_exists (x ∷ versions)) (minus_one-back (back_or x versions))
    ∙ (version_exists-AnyFrom (x ∷ versions) (pos (back_or x versions))).1 (any_back versions x))

changed :
    (o : Option System) (f : System → System) (p : LineProcessor)
    → ((s : System) → (f s).versions ≡ s.versions)
    → SelectedIn o p.selected_version
    → Keeps (change_system f (record p { backup_system = o }))
unfolding change_system
changed none f p same h = failed _
changed (some s) f p same h =
    kept _
      (subst (λ vs. (vs ≡ []) ⊎ (version_exists vs p.selected_version ≡ true)) (sym (same s)) h)

either : (b : Bool) (x y : Outcome) → Keeps x → Keeps y → Keeps (if b then x else y)
either true x y h k = h
either false x y h k = k

after : {A : Type 0} (r : Result A) (f : A → Outcome) → ((a : A) → Keeps (f a)) → Keeps (r >>= f)
after (ok a) f h = h a
after (throw e) f h = failed _

guarded :
    (b : Bool) (e : Exception) (x : Outcome)
    → (b ≡ true → Keeps x)
    → Keeps (if not b then throw e else x)
guarded true e x h = h refl
guarded false e x h = failed _

module _ (calls : Calls) (p : LineProcessor) where
  abbrev with_system : Option System → LineProcessor
  with_system o = record p { backup_system = o }

  select_version_at :
      (o : Option System) (v : ℤ)
      → Keeps (existing_version (select calls v (with_system o)) (with_system o))
  unfolding existing_version
  select_version_at none v = failed _
  select_version_at (some s) v =
      either (count_of s == 0) _ _ (failed _)
        (guarded (version_exists s.versions (chosen calls v s)) _ _ (λ e. kept _ (inr e)))

  select_keypair_at :
      (o : Option System) (word : String) (rest : List String)
      → SelectedIn o p.selected_version
      → Keeps (process_select_keypair calls word rest (with_system o))
  unfolding process_select_keypair set_keypair
  select_keypair_at none word rest h = failed _
  select_keypair_at (some s) word rest h = after (calls.load_keypair word) _ (λ key.
      after (try_key calls key rest) _ (λ _. changed (some s) (set_keypair key) p (λ s. refl) h))

  backup_at : (o : Option System) → Keeps (process_backup calls (with_system o))
  unfolding process_backup
  backup_at none = failed _
  backup_at (some s) = after (calls.perform_backup s) _ (λ _. kept _ tt)

  restore_at : (o : Option System) → Keeps (process_restore calls (with_system o))
  unfolding process_restore
  restore_at none = failed _
  restore_at (some s) = after (calls.restore_backup s p.selected_version) _ (λ _. kept _ tt)

  use_snapshots_at :
      (o : Option System) (word : String)
      → SelectedIn o p.selected_version
      → Keeps (process_set_use_snapshots calls word (with_system o))
  unfolding process_set_use_snapshots set_use_snapshots
  use_snapshots_at none word h = failed _
  use_snapshots_at (some s) word h =
      either _ _ _ (changed (some s) (set_use_snapshots true) p (λ s. refl) h)
        (either _ _ _ (changed (some s) (set_use_snapshots false) p (λ s. refl) h) (kept _ h))

  verify_at :
      (o : Option System) (args : List String)
      → SelectedIn o p.selected_version
      → Keeps (process_verify calls args (with_system o))
  unfolding process_verify existing_version
  verify_at none args h = failed _
  verify_at (some s) [] h =
      either (count_of s == 0) _ _ (failed _)
        (after (calls.verify s p.selected_version) _ (λ _. kept _ h))
  verify_at (some s) (word ∷ rest) h =
      either (count_of s == 0) _ _ (failed _)
        (either _ _ _ (kept _ h) (after (calls.full_verify s p.selected_version) _ (λ _. kept _ h)))

  show_at :
      (o : Option System) (what : Shown)
      → SelectedIn o p.selected_version
      → Keeps (process_show_one calls.tolower what (with_system o))
  unfolding process_show_one existing_version
  show_at none w_dependencies h = either _ _ _ (kept _ tt) (failed _)
  show_at none w_versions h = either _ _ _ (kept _ tt) (failed _)
  show_at none w_version_count h = either _ _ _ (kept _ tt) (failed _)
  show_at none w_paths h = either _ _ _ (kept _ tt) (failed _)
  show_at none w_version_summary h = failed _
  show_at (some s) w_dependencies h =
      either _ _ _ (kept _ h) (either (count_of s == 0) _ _ (failed _) (kept _ h))
  show_at (some s) w_versions h = either _ _ _ (kept _ h) (kept _ h)
  show_at (some s) w_version_count h = either _ _ _ (kept _ h) (kept _ h)
  show_at (some s) w_paths h = either _ _ _ (kept _ h) (kept _ h)
  show_at (some s) w_version_summary h = either (count_of s == 0) _ _ (failed _) (kept _ h)

module _ (calls : Calls) (p : LineProcessor) (h : IsSelected p) where
  change :
      (f : System → System)
      → ((s : System) → (f s).versions ≡ s.versions)
      → Keeps (change_system f p)
  change f same = changed p.backup_system f p same h

  chosen_entry :
      {C : Type 0} (o : Option C) (f : C → Outcome)
      → ((c : C) → Keeps (f c))
      → Keeps (dispatch o f p)
  chosen_entry none f k = kept _ h
  chosen_entry (some c) f k = k c

  exclude_name-Keeps :
      (word : String) (rest : List String) → Keeps (process_exclude_name calls word rest p)
  unfolding process_exclude_name add_ignored_name
  exclude_name-Keeps word [] = kept _ h
  exclude_name-Keeps word (name ∷ rest) =
      chosen_entry _ _ (λ type. change (add_ignored_name name type) (λ s. refl))

  exclude_one-Keeps :
      (x : Excluded) (arg : String) (rest : List String)
      → Keeps (process_exclude_one calls x arg rest p)
  unfolding process_exclude_one process_exclude_extension process_exclude_path add_ignored_extension
      add_ignored_path
  exclude_one-Keeps x_extension arg rest = change (add_ignored_extension arg) (λ s. refl)
  exclude_one-Keeps x_path arg rest =
      change (add_ignored_path (ensure_last_character_is_not_backslash arg)) (λ s. refl)
  exclude_one-Keeps x_name arg rest = exclude_name-Keeps arg rest

  select-Keeps : (word : String) (rest : List String) → Keeps (process_select calls word rest p)
  unfolding process_select process_select_one process_select_version
  select-Keeps word [] = kept _ h
  select-Keeps word (arg ∷ rest) = chosen_entry _ _ (λ (which, needs). one which)
    where
      one : (x : Selected) → Keeps (process_select_one calls x arg rest p)
      one s_version =
          chosen_entry (calls.read_int arg) _ (select_version_at calls p p.backup_system)
      one s_keypair = select_keypair_at calls p p.backup_system arg rest h

  set-Keeps : (word : String) (rest : List String) → Keeps (process_set calls word rest p)
  unfolding process_set process_set_one process_set_change_criterium set_change_criterium
  set-Keeps word [] = kept _ h
  set-Keeps word (arg ∷ rest) = chosen_entry _ _ (λ (which, needs). one which)
    where
      one : (x : Setting) → Keeps (process_set_one calls x arg p)
      one t_use_snapshots = use_snapshots_at calls p p.backup_system arg h
      one t_change_criterium = chosen_entry _ _ (λ cc. change (set_change_criterium cc) (λ s. refl))

  generate-Keeps : (word : String) (rest : List String) → Keeps (process_generate calls word rest p)
  unfolding process_generate process_generate_keypair
  generate-Keeps word [] = kept _ h
  generate-Keeps word (a ∷ []) = either _ _ _ (kept _ h) (kept _ h)
  generate-Keeps word (a ∷ b ∷ []) = either _ _ _ (kept _ h) (kept _ h)
  generate-Keeps word (a ∷ b ∷ d ∷ rest) = either _ _ _ (kept _ h) (kept _ h)

  run_command-Keeps :
      (command : Command) (arg : String) (rest : List String) (later : LineProcessor → Outcome)
      → Keeps (later p)
      → Keeps (run_command calls command arg rest later p)
  unfolding run_command process_open process_add process_show add_source process_exclude
  run_command-Keeps c_open arg rest later k =
      after (calls.open_system arg) _ (λ s. kept _ (opened s.versions s))
  run_command-Keeps c_add arg rest later k = change (add_source _) (λ s. refl)
  run_command-Keeps c_exclude arg [] later k = kept _ h
  run_command-Keeps c_exclude arg (x ∷ rest) later k =
      chosen_entry _ _ (λ e. exclude_one-Keeps e.0 x rest)
  run_command-Keeps c_backup arg rest later k = backup_at calls p p.backup_system
  run_command-Keeps c_restore arg rest later k = restore_at calls p p.backup_system
  run_command-Keeps c_select arg rest later k = select-Keeps arg rest
  run_command-Keeps c_show arg rest later k =
      chosen_entry _ _ (λ e. show_at calls p p.backup_system e.0 h)
  run_command-Keeps c_if arg rest later k = either _ _ _ (kept _ h) k
  run_command-Keeps c_set arg rest later k = set-Keeps arg rest
  run_command-Keeps c_verify arg rest later k = verify_at calls p p.backup_system (arg ∷ rest) h
  run_command-Keeps c_generate arg rest later k = generate-Keeps arg rest

  run_alone-Keeps : (command : Command) → Keeps (run_alone calls command p)
  unfolding run_alone
  run_alone-Keeps c_backup = backup_at calls p p.backup_system
  run_alone-Keeps c_restore = restore_at calls p p.backup_system
  run_alone-Keeps c_verify = verify_at calls p p.backup_system [] h
  run_alone-Keeps c_open = kept _ h
  run_alone-Keeps c_add = kept _ h
  run_alone-Keeps c_exclude = kept _ h
  run_alone-Keeps c_select = kept _ h
  run_alone-Keeps c_show = kept _ h
  run_alone-Keeps c_if = kept _ h
  run_alone-Keeps c_set = kept _ h
  run_alone-Keeps c_generate = kept _ h

module _ (calls : Calls) where
  process_line-Keeps :
      (line : List String) (p : LineProcessor) → IsSelected p → Keeps (process_line calls line p)
  unfolding process_line
  process_line-Keeps [] p h = kept _ h
  process_line-Keeps (word ∷ []) p h =
      chosen_entry calls p h (find_entry calls word commands) _
        (λ e. either e.1 _ _ (kept _ h) (run_alone-Keeps calls p h e.0))
  process_line-Keeps (word ∷ arg ∷ rest) p h =
      let later = process_line-Keeps rest p h in
      chosen_entry calls p h (find_entry calls word commands) _
        (λ e. run_command-Keeps calls p h e.0 arg rest (process_line calls rest) later)

  caught :
      (p : LineProcessor) (o : Outcome) → IsSelected p → Keeps o → Keeps (or_unchanged calls p o)
  caught p (ok r) h k = k
  caught p (throw e) h k = either (is_fatal e) _ _ (failed _) (kept _ h)

  continued :
      (o : Outcome) (f : LineProcessor → Outcome)
      → Keeps o
      → ((p : LineProcessor) → IsSelected p → Keeps (f p))
      → Keeps (o >>= λ now. f now.0 >>= λ later. ok (later.0, now.1 ++ later.1))
  unfolding Keeps
  continued (throw e) f k h = tt
  continued (ok now) f k h = ending (f now.0) now.1 (h now.0 k)

  process-Keeps :
      (lines : List (List String)) (p : LineProcessor)
      → IsSelected p
      → Keeps (process calls lines p)
  unfolding process
  process-Keeps [] p h = kept _ h
  process-Keeps ([] ∷ lines) p h = process-Keeps lines p h
  process-Keeps ((word ∷ args) ∷ lines) p h = either _ _ _ (kept _ h) (
      continued _ (process calls lines)
        (caught p (process_line calls (word ∷ args) p) h (process_line-Keeps (word ∷ args) p h))
        (process-Keeps lines))

  Keeps-IsSelected :
      (o : Outcome) (r : LineProcessor × List Effect) → Keeps o → o ≡ ok r → IsSelected r.0
  Keeps-IsSelected o r k e = unkept r (subst Keeps e k)

  -- Whatever lines are processed, and whatever the backup system does or throws: where the loop ends
  -- without a fatal exception and a backup is open, the selected version is one that version_exists
  -- accepts, or the backup has no version.
  pub process-IsSelected :
      (lines : List (List String)) (p final : LineProcessor) (effects : List Effect)
      → IsSelected p
      → process calls lines p ≡ ok (final, effects)
      → IsSelected final
  process-IsSelected lines p final effects h e =
      Keeps-IsSelected (process calls lines p) (final, effects) (process-Keeps lines p h) e
