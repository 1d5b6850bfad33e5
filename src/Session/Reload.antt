-- ===== src/Session/Reload.antt =====
-- What a save comes to at each of its calls, and that the next run loads it.
use teleport_client.Base.{
  Bool, arith, text_eq_refl, ℕ, ◌≡◌, subst, Option-cases, inl, inr, refl, true, false, ◌||◌, Option,
  none, some, Text, is_empty, if◌then◌else◌,
}
use teleport_client.Session.{
  Stage, making_dir, creating, setting_mode, writing, syncing, closing, renaming, opening_dir,
  syncing_dir, closing_dir, abandoning, removing, SessionCodec, PairedSession, FileSystem, IsLawful,
  done, decoded_session, load_session, save_prefix, save_session, save_steps, save_step,
  first_stage, data_of,
}
use teleport_client.Session.Atomic.{IsSound, IsSoundPair, save_steps-IsSound}

-- Reading back what was marshalled gives the same session.
abbrev pub IsRoundTrip : SessionCodec → Type 0
IsRoundTrip codec =
    (session : PairedSession) (bytes : Text)
    → codec.marshal session ≡ some bytes
    → codec.unmarshal bytes ≡ some session

-- The call of `os.Rename` has replaced the file.
unfoldable pub is_committed : Stage → Bool
is_committed opening_dir = true
is_committed syncing_dir = true
is_committed closing_dir = true
is_committed (done ok) = ok
is_committed making_dir = false
is_committed creating = false
is_committed (setting_mode name) = false
is_committed (writing name) = false
is_committed (syncing name) = false
is_committed (closing name) = false
is_committed (renaming name) = false
is_committed (abandoning name) = false
is_committed (removing name) = false

module _ (F : FileSystem) (laws : IsLawful F) where
  -- The session file is the old one, and from the rename on the new one.
  contents-IsSound :
      (old : Text → Option Text) (path bytes : Text) (stage : Stage) (s : F.State)
      → IsSound F laws old path bytes stage s
      → F.contents s path ≡ (if is_committed stage then some bytes else old path)
  unfolding IsSound is_committed
  contents-IsSound old path bytes making_dir s h = h path
  contents-IsSound old path bytes creating s h = h path
  contents-IsSound old path bytes (setting_mode name) s (differs, fresh, others, has) =
      others path differs
  contents-IsSound old path bytes (writing name) s (differs, fresh, others, has) =
      others path differs
  contents-IsSound old path bytes (syncing name) s (differs, fresh, others, has) =
      others path differs
  contents-IsSound old path bytes (closing name) s (differs, fresh, others, has) =
      others path differs
  contents-IsSound old path bytes (renaming name) s (differs, fresh, others, has) =
      others path differs
  contents-IsSound old path bytes opening_dir s h = ground (arith, h path, text_eq_refl path)
  contents-IsSound old path bytes syncing_dir s h = ground (arith, h path, text_eq_refl path)
  contents-IsSound old path bytes closing_dir s h = ground (arith, h path, text_eq_refl path)
  contents-IsSound old path bytes (abandoning name) s (differs, fresh, others) = others path differs
  contents-IsSound old path bytes (removing name) s (differs, fresh, others) = others path differs
  contents-IsSound old path bytes (done true) s h = ground (arith, h path, text_eq_refl path)
  contents-IsSound old path bytes (done false) s (same, undone) = same

  first_stage-IsSound :
      (o : Option Text) (path : Text) (s : F.State)
      → IsSound F laws (F.contents s) path (data_of o) (first_stage o) s
  unfolding IsSound
  first_stage-IsSound none path s = (refl, λ removes q. refl)
  first_stage-IsSound (some bytes) path s = λ q. refl

  save_prefix-IsSound :
      (codec : SessionCodec) (n : ℕ) (path : Text) (session : PairedSession) (s : F.State)
      → IsSoundPair F laws
          (F.contents s)
          path
          (data_of (codec.marshal session))
          (save_prefix F codec n path session s)
  unfolding save_prefix
  save_prefix-IsSound codec n path session s =
      save_steps-IsSound F laws (F.contents s) path (data_of (codec.marshal session)) n
        (first_stage (codec.marshal session), s)
        (first_stage-IsSound (codec.marshal session) path s)

  -- After any number of the calls of a save, whatever they returned, the session file is the old one
  -- until the rename has succeeded, and all of the new one from then on: a file system with the
  -- documented effects never shows a part of a session.
  pub contents-save_prefix :
      (codec : SessionCodec) (n : ℕ) (path : Text) (session : PairedSession) (s : F.State)
      → F.contents (save_prefix F codec n path session s).1 path ≡ (
          if is_committed (save_prefix F codec n path session s).0
          then some (data_of (codec.marshal session))
          else F.contents s path)
  contents-save_prefix codec n path session s =
      contents-IsSound (F.contents s) path (data_of (codec.marshal session))
        (save_prefix F codec n path session s).0 (save_prefix F codec n path session s).1
        (save_prefix-IsSound codec n path session s)

  save_session-IsSound :
      (codec : SessionCodec) (path : Text) (session : PairedSession) (s : F.State)
      → IsSoundPair F laws
          (F.contents s)
          path
          (data_of (codec.marshal session))
          (save_session F codec path session s)
  unfolding save_session
  save_session-IsSound codec path session s = save_prefix-IsSound codec 10 path session s

  contents-IsSound_undone :
      (codec : SessionCodec) (path : Text) (session : PairedSession) (s : F.State)
      → IsSound F laws
          (F.contents s)
          path
          (data_of (codec.marshal session))
          (done false)
          (save_session F codec path session s).1
      → ((t : F.State) (n content : Text) → F.contents t n ≡ some content → (F.remove t n).1 ≡ true)
      → (q : Text) → F.contents (save_session F codec path session s).1 q ≡ F.contents s q
  unfolding IsSound
  contents-IsSound_undone codec path session s (same, undone) removes q = undone removes q

  -- A session that cannot be marshalled is not saved.
  save_session-unmarshalled :
      (codec : SessionCodec) (path : Text) (session : PairedSession) (s : F.State)
      → codec.marshal session ≡ none
      → (save_session F codec path session s).0 ≡ done false
  unfolding save_session save_prefix save_steps save_step
  save_session-unmarshalled codec path session s e = rw e refl

  contents-save_session :
      (codec : SessionCodec) (path : Text) (session : PairedSession) (s : F.State)
      → (save_session F codec path session s).0 ≡ done true
      → F.contents (save_session F codec path session s).1 path
        ≡ some (data_of (codec.marshal session))
  unfolding is_committed
  contents-save_session codec path session s e =
      rw
        (contents-IsSound (F.contents s) path (data_of (codec.marshal session))
          (save_session F codec path session s).0 (save_session F codec path session s).1
          (save_session-IsSound codec path session s))
        (rw e refl)

  -- A save that returns an error leaves every file as it was, its temporary file included, where the
  -- removal of a file that exists succeeds.
  pub contents-failed_save_session :
      (codec : SessionCodec) (path : Text) (session : PairedSession) (s : F.State) (q : Text)
      → (save_session F codec path session s).0 ≡ done false
      → ((t : F.State) (n content : Text) → F.contents t n ≡ some content → (F.remove t n).1 ≡ true)
      → F.contents (save_session F codec path session s).1 q ≡ F.contents s q
  contents-failed_save_session codec path session s q e removes =
      contents-IsSound_undone codec path session s
        (subst
          (λ stage.
            IsSound F laws (F.contents s) path (data_of (codec.marshal session)) stage
              (save_session F codec path session s).1)
          e (save_session-IsSound codec path session s))
        removes q

  -- A save that returns no error is loaded by the next run, unless its token or its secret is empty.
  pub load_session-save_session :
      (codec : SessionCodec) (path : Text) (session : PairedSession) (s : F.State)
      → IsRoundTrip codec
      → (save_session F codec path session s).0 ≡ done true
      → load_session F codec (save_session F codec path session s).1 path ≡ (
          if is_empty session.session_token || is_empty session.session_secret
          then none
          else some session)
  unfolding load_session
  load_session-save_session codec path session s round e =
      elim (Option-cases (codec.marshal session)) [
        | inl m ↦ absurd_save (save_session-unmarshalled codec path session s m)
        | inr (bytes, m) ↦
            rw (contents-save_session codec path session s e) (rw (m, round session bytes m) refl)
      ]
    where
      absurd_save :
          (save_session F codec path session s).0 ≡ done false
          → decoded_session codec (F.contents (save_session F codec path session s).1 path) ≡ (
              if is_empty session.session_token || is_empty session.session_secret
              then none
              else some session)
      absurd_save bad = cc
