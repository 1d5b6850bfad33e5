-- ===== src/Session/Atomic.antt =====
-- A save replaces the session file at once.
use teleport_client.Base.{
  ℕ, zero, suc, ◌≡◌, refl, sym, Bool, true, false, Option, none, some, ◌++◌, Text, codes, text_eq,
  text_eq_iff, text_eq_refl, if◌then◌else◌, arith, Bool-cases, Option-cases, inl, inr, subst,
}
use teleport_client.Session.{
  FileSystem, IsLawful, Stage, making_dir, creating, setting_mode, writing, syncing, closing,
  renaming, opening_dir, syncing_dir, closing_dir, abandoning, removing, done, branch, created,
  is_named, save_step, save_steps,
}

module _ (F : FileSystem) (laws : IsLawful F) (old : Text → Option Text) (path bytes : Text) where
  -- The files are the first ones, but for the temporary file, which has this content.
  abbrev pub IsStaged : Text → Option Text → F.State → Type 0
  IsStaged name content s =
      (text_eq name path ≡ false)
      × (old name ≡ none)
      × ((q : Text) → text_eq name q ≡ false → F.contents s q ≡ old q)
      × (F.contents s name ≡ content)

  abbrev pub IsAbandoned : Text → F.State → Type 0
  IsAbandoned name s =
      (text_eq name path ≡ false)
      × (old name ≡ none)
      × ((q : Text) → text_eq name q ≡ false → F.contents s q ≡ old q)

  abbrev pub IsReplaced : F.State → Type 0
  IsReplaced s = (q : Text) → F.contents s q ≡ (if text_eq path q then some bytes else old q)

  -- A failed save that could remove its temporary file changed nothing.
  abbrev pub IsUndone : F.State → Type 0
  IsUndone s =
      (F.contents s path ≡ old path)
      × (((t : F.State) (n content : Text)
            → F.contents t n ≡ some content
            → (F.remove t n).1 ≡ true)
          → (q : Text) → F.contents s q ≡ old q)

  unfoldable pub IsSound : Stage → F.State → Type 0
  IsSound making_dir s = (q : Text) → F.contents s q ≡ old q
  IsSound creating s = (q : Text) → F.contents s q ≡ old q
  IsSound (setting_mode name) s = IsStaged name (some (codes "")) s
  IsSound (writing name) s = IsStaged name (some (codes "")) s
  IsSound (syncing name) s = IsStaged name (some bytes) s
  IsSound (closing name) s = IsStaged name (some bytes) s
  IsSound (renaming name) s = IsStaged name (some bytes) s
  IsSound opening_dir s = IsReplaced s
  IsSound syncing_dir s = IsReplaced s
  IsSound closing_dir s = IsReplaced s
  IsSound (abandoning name) s = IsAbandoned name s
  IsSound (removing name) s = IsAbandoned name s
  IsSound (done true) s = IsReplaced s
  IsSound (done false) s = IsUndone s

  abbrev pub IsSoundPair : Stage × F.State → Type 0
  IsSoundPair m = IsSound m.0 m.1

  branch-IsSound :
      (r : F.State × Bool) (next failed : Stage)
      → (r.1 ≡ true → IsSound next r.0)
      → (r.1 ≡ false → IsSound failed r.0)
      → IsSoundPair (branch F r next failed)
  branch-IsSound (s, true) next failed h g = h refl
  branch-IsSound (s, false) next failed h g = g refl

  created-IsSound :
      (r : F.State × Option Text)
      → ((q : Text) → F.contents r.0 q ≡ (if is_named r.1 q then some (codes "") else old q))
      → ((name : Text) → r.1 ≡ some name → (text_eq name path ≡ false) × (old name ≡ none))
      → IsSoundPair (created F r)
  unfolding IsSound
  created-IsSound (s, none) h g = (h path, λ removes q. h q)
  created-IsSound (s, some name) h g =
      let (differs, fresh) = g name refl in
      (differs, fresh, λ q e. staged q e (h q), named (h name))
    where
      staged :
          (q : Text)
          → text_eq name q ≡ false
          → F.contents s q ≡ (if text_eq name q then some (codes "") else old q)
          → F.contents s q ≡ old q
      staged q e k = cc

      named :
          F.contents s name ≡ (if text_eq name name then some (codes "") else old name)
          → F.contents s name ≡ some (codes "")
      named k = ground (arith, text_eq_refl name, k)

  unstaged :
      (q name : Text) (content : Option Text)
      → content ≡ (if text_eq name q then some (codes "") else old q)
      → text_eq name q ≡ false
      → content ≡ old q
  unstaged q name content h e = cc

  -- What the rename leaves, from the staged files.
  renamed-IsReplaced :
      (name : Text) (s : F.State)
      → IsStaged name (some bytes) s
      → (F.rename s name path).1 ≡ true
      → IsReplaced (F.rename s name path).0
  renamed-IsReplaced name s (differs, fresh, others, content) ok q =
      elim (Bool-cases (text_eq path q)) [
        | inl e ↦ ground (arith, laws.contents-rename s name path q, ok, e, content)
        | inr e ↦ elim (Bool-cases (text_eq name q)) [
          | inl n ↦
              let same : name ≡ q = (text_eq_iff name q).0 n in
              let gone : old q ≡ none = rw (sym same) fresh in
              ground (arith, laws.contents-rename s name path q, ok, e, n, gone)
          | inr n ↦ ground (arith, laws.contents-rename s name path q, ok, e, n, others q n)
        ]
      ]

  failed_rename-IsAbandoned :
      (name : Text) (s : F.State)
      → IsStaged name (some bytes) s
      → (F.rename s name path).1 ≡ false
      → IsAbandoned name (F.rename s name path).0
  failed_rename-IsAbandoned name s (differs, fresh, others, content) bad =
      (differs, fresh, λ q n. ground (arith, laws.contents-rename s name path q, bad, others q n))

  removed-IsUndone : (name : Text) (s : F.State) → IsAbandoned name s → IsUndone (F.remove s name).0
  removed-IsUndone name s (differs, fresh, others) = (
    ground (arith, laws.contents-remove s name path, differs, others path differs),
    λ removes q. elim (Bool-cases (text_eq name q)) [
      | inl n ↦
          let same : name ≡ q = (text_eq_iff name q).0 n in
          let gone : old q ≡ none = rw (sym same) fresh in
          rw gone (subst (λ p. F.contents (F.remove s name).0 p ≡ none) same (removed removes))
      | inr n ↦ ground (arith, laws.contents-remove s name q, n, others q n)
    ],
  )
    where
      removed :
          ((t : F.State) (n content : Text)
            → F.contents t n ≡ some content
            → (F.remove t n).1 ≡ true)
          → F.contents (F.remove s name).0 name ≡ none
      removed removes = elim (Option-cases (F.contents s name)) [
        | inl absent ↦ ground (arith, laws.contents-remove s name name, text_eq_refl name, absent)
        | inr (content, there) ↦ ground (
          arith,
          laws.contents-remove s name name,
          text_eq_refl name,
          removes s name content there,
        )
      ]

  -- A call that leaves the contents as they are keeps what they are.
  kept-IsStaged :
      (name : Text) (content : Option Text) (s t : F.State)
      → ((q : Text) → F.contents t q ≡ F.contents s q)
      → IsStaged name content s
      → IsStaged name content t
  kept-IsStaged name content s t same (differs, fresh, others, has) =
      (differs, fresh, λ q n. rw (same q) (others q n), rw (same name) has)

  kept-IsAbandoned :
      (name : Text) (s t : F.State)
      → ((q : Text) → F.contents t q ≡ F.contents s q)
      → IsAbandoned name s
      → IsAbandoned name t
  kept-IsAbandoned name s t same (differs, fresh, others) =
      (differs, fresh, λ q n. rw (same q) (others q n))

  kept-IsReplaced :
      (s t : F.State) → ((q : Text) → F.contents t q ≡ F.contents s q) → IsReplaced s → IsReplaced t
  kept-IsReplaced s t same h q = rw (same q) (h q)

  staged-IsAbandoned :
      (name : Text) (content : Option Text) (s : F.State)
      → IsStaged name content s
      → IsAbandoned name s
  staged-IsAbandoned name content s (differs, fresh, others, has) = (differs, fresh, others)

  written-IsStaged :
      (name : Text) (s : F.State)
      → IsStaged name (some (codes "")) s
      → (F.write s name bytes).1 ≡ true
      → IsStaged name (some bytes) (F.write s name bytes).0
  written-IsStaged name s (differs, fresh, others, has) ok = (
    differs,
    fresh,
    λ q n. rw (laws.contents-write_others s name bytes q n) (others q n),
    rw (laws.contents-write s name bytes ok) (rw has refl),
  )

  save_step-IsSound :
      (stage : Stage) (s : F.State)
      → IsSound stage s
      → IsSoundPair (save_step F path bytes (stage, s))
  unfolding IsSound save_step
  save_step-IsSound making_dir s h =
      let same : (q : Text) → F.contents (F.mkdir_all s (F.dir path)).0 q ≡ old q =
        λ q. rw (laws.contents-mkdir_all s (F.dir path) q) (h q) in
      branch-IsSound (F.mkdir_all s (F.dir path)) creating (done false) (λ ok. same)
        (λ bad. (same path, λ removes q. same q))
  save_step-IsSound creating s h =
      created-IsSound (F.create_temp s (F.dir path) (F.base path ++ codes ".tmp-*"))
        (λ q.
          rw (sym (h q))
            (laws.contents-create_temp s (F.dir path) (F.base path ++ codes ".tmp-*") q))
        (λ name e. (
          laws.create_temp_differs s path name e,
          rw (sym (h name))
              (laws.create_temp_fresh s (F.dir path) (F.base path ++ codes ".tmp-*") name e),
        ))
  save_step-IsSound (setting_mode name) s h =
      let kept =
        kept-IsStaged name (some (codes "")) s (F.chmod s name).0 (laws.contents-chmod s name) h in
      branch-IsSound (F.chmod s name) (writing name) (abandoning name) (λ ok. kept)
        (λ bad. staged-IsAbandoned name (some (codes "")) (F.chmod s name).0 kept)
  save_step-IsSound (writing name) s h =
      branch-IsSound (F.write s name bytes) (syncing name) (abandoning name)
        (λ ok. written-IsStaged name s h ok) (λ bad. partly h)
    where
      partly : IsStaged name (some (codes "")) s → IsAbandoned name (F.write s name bytes).0
      partly (differs, fresh, others, has) =
          (differs, fresh, λ q n. rw (laws.contents-write_others s name bytes q n) (others q n))
  save_step-IsSound (syncing name) s h =
      let kept =
        kept-IsStaged name (some bytes) s (F.sync s name).0 (laws.contents-sync s name) h in
      branch-IsSound (F.sync s name) (closing name) (abandoning name) (λ ok. kept)
        (λ bad. staged-IsAbandoned name (some bytes) (F.sync s name).0 kept)
  save_step-IsSound (closing name) s h =
      let kept =
        kept-IsStaged name (some bytes) s (F.close s name).0 (laws.contents-close s name) h in
      branch-IsSound (F.close s name) (renaming name) (abandoning name) (λ ok. kept)
        (λ bad. staged-IsAbandoned name (some bytes) (F.close s name).0 kept)
  save_step-IsSound (renaming name) s h =
      branch-IsSound (F.rename s name path) opening_dir (abandoning name)
        (renamed-IsReplaced name s h) (failed_rename-IsAbandoned name s h)
  save_step-IsSound opening_dir s h =
      let kept =
        kept-IsReplaced s (F.open_dir s (F.dir path)).0 (laws.contents-open_dir s (F.dir path)) h in
      branch-IsSound (F.open_dir s (F.dir path)) syncing_dir (done true) (λ ok. kept) (λ bad. kept)
  save_step-IsSound syncing_dir s h =
      let kept =
        kept-IsReplaced s (F.sync_dir s (F.dir path)).0 (laws.contents-sync_dir s (F.dir path)) h in
      branch-IsSound (F.sync_dir s (F.dir path)) closing_dir closing_dir (λ ok. kept) (λ bad. kept)
  save_step-IsSound closing_dir s h =
      let kept =
        kept-IsReplaced s (F.close_dir s (F.dir path)).0 (laws.contents-close_dir s (F.dir path))
          h in
      branch-IsSound (F.close_dir s (F.dir path)) (done true) (done true) (λ ok. kept) (λ bad. kept)
  save_step-IsSound (abandoning name) s h =
      let kept = kept-IsAbandoned name s (F.close s name).0 (laws.contents-close s name) h in
      branch-IsSound (F.close s name) (removing name) (removing name) (λ ok. kept) (λ bad. kept)
  save_step-IsSound (removing name) s h =
      let undone = removed-IsUndone name s h in
      branch-IsSound (F.remove s name) (done false) (done false) (λ ok. undone) (λ bad. undone)
  save_step-IsSound (done true) s h = h
  save_step-IsSound (done false) s h = h

  pub save_steps-IsSound :
      (n : ℕ) (m : Stage × F.State) → IsSoundPair m → IsSoundPair (save_steps F n path bytes m)
  unfolding save_steps
  save_steps-IsSound zero m h = h
  save_steps-IsSound (suc n) (stage, s) h =
      save_steps-IsSound n (save_step F path bytes (stage, s)) (save_step-IsSound stage s h)
