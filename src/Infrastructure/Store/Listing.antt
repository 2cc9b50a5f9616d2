-- ===== src/Infrastructure/Store/Listing.antt =====
-- What `list_profiles` of app/infrastructure/profile_store.py returns.
use mathlib.Core.List
use mathlib.Core.List.{Perm}
use mathlib.Core.List.Perm
use mathlib.Core.Path.{◌∙◌}
use remote_ai_bridge.Prelude.{String, ◌≡◌, refl, ap, false, [], ◌∷◌, Dict, All, if-cases}
use remote_ai_bridge.Domain.Errors.{ok}
use remote_ai_bridge.Domain.Python.{Python}
use remote_ai_bridge.Domain.Profile.{Profile, validate}
use remote_ai_bridge.Exec.{Env, Sys, Trace, touched, pure, gets}
use remote_ai_bridge.Exec.Runs.{bind-ok, bind-lift, file_operation-works}
use remote_ai_bridge.Infrastructure.Store.{insert_file, sorted_files, read_files, list_profiles}

-- the profiles in the files
unfoldable pub contents : Dict Profile → List.List Profile
contents [] = []
contents ((n, p) ∷ files) = p ∷ contents files

abbrev pub AllValid : Python → List.List Profile → Type 0
AllValid py ps = All (λ p. validate py p ≡ ok tt) ps

module _ (py : Python) where
  insert_file-Perm :
      (name : String) (p : Profile) (files : Dict Profile)
      → Perm (contents (insert_file py name p files)) (p ∷ contents files)
  unfolding insert_file contents
  insert_file-Perm name p [] = Perm.refl _
  insert_file-Perm name p ((n, q) ∷ files) =
      if-cases (λ fs. Perm (contents fs) (p ∷ q ∷ contents files)) (py.path_before n name) _ _
        (λ _.
          Perm.trans (Perm.cons q (insert_file-Perm name p files)) (Perm.swap p q (contents files)))
        (λ _. Perm.refl _)

  sorted_files-Perm :
      (files : Dict Profile) → Perm (contents (sorted_files py files)) (contents files)
  unfolding sorted_files contents
  sorted_files-Perm [] = Perm.refl []
  sorted_files-Perm ((n, q) ∷ files) =
      Perm.trans (insert_file-Perm n q (sorted_files py files))
        (Perm.cons q (sorted_files-Perm files))

  AllValid-insert_file :
      (name : String) (p : Profile) (files : Dict Profile)
      → validate py p ≡ ok tt
      → AllValid py (contents files)
      → AllValid py (contents (insert_file py name p files))
  unfolding insert_file contents
  AllValid-insert_file name p [] v h = (v, tt)
  AllValid-insert_file name p ((n, q) ∷ files) v (w, h) =
      if-cases (λ fs. AllValid py (contents fs)) (py.path_before n name) _ _
        (λ _. (w, AllValid-insert_file name p files v h)) (λ _. (v, (w, h)))

  AllValid-sorted_files :
      (files : Dict Profile)
      → AllValid py (contents files)
      → AllValid py (contents (sorted_files py files))
  unfolding sorted_files contents
  AllValid-sorted_files [] h = tt
  AllValid-sorted_files ((n, q) ∷ files) (v, h) =
      AllValid-insert_file n q (sorted_files py files) v (AllValid-sorted_files files h)

module _ (env : Env) (working : (t : Trace) → env.io_fails t ≡ false) where
  read_files-run :
      (files : Dict Profile) (s : Sys)
      → AllValid env.python (contents files)
      → (t : Trace) × (read_files env files s ≡ (ok (contents files), record s { trace = t }))
  unfolding read_files contents pure
  read_files-run [] s h = (s.trace, refl)
  read_files-run ((n, p) ∷ files) s (v, h) =
      let s' = record s { trace = touched ∷ s.trace } in
      let (t, q) = read_files-run files s' h in
      (
        t,
        bind-ok _ _ s s' tt (file_operation-works env s (working s.trace))
            ∙ bind-lift _ _ s' tt v
            ∙ bind-ok _ _ s' (record s { trace = t }) (contents files) q,
      )

-- On a file system that does not fail, where every stored profile is valid, listing the profiles
-- returns, and what it returns are the stored profiles, each as often as it is stored.
pub list_profiles-Perm :
    (env : Env) (s : Sys)
    → ((t : Trace) → env.io_fails t ≡ false)
    → AllValid env.python (contents s.profiles)
    → (ps : List.List Profile) × ((list_profiles env s).0 ≡ ok ps) × Perm ps (contents s.profiles)
unfolding list_profiles gets
list_profiles-Perm env s working h =
    let files = sorted_files env.python s.profiles in
    let (t, q) =
      read_files-run env working files s (AllValid-sorted_files env.python s.profiles h) in
    (
      contents files,
      ap (λ x. x.0) (bind-ok (gets (λ s. s.profiles)) _ s s s.profiles refl ∙ q),
      sorted_files-Perm env.python s.profiles,
    )
