-- ===== src/Pairing/Reconnect.antt =====
-- A session that a pairing has saved is the one that the next run connects with.
use teleport_client.Base.{
  ℕ, ◌≡◌, refl, subst, Bool, true, false, Option, none, some, [], Text, codes, is_empty,
  is_nonempty, if◌then◌else◌,
}
use teleport_client.Session.{
  SessionCodec, FileSystem, IsLawful, PairedSession, done, load_session, save_session,
}
use teleport_client.Session.Reload.{IsRoundTrip, load_session-save_session}
use teleport_client.Flags.{CliFlags}
use teleport_client.Api.{ApiResponse}
use teleport_client.Pairing.{
  Cloud, Outcome, failed, returned, SessionResult, request_and_await, request_access, granted,
  saved_state, paired, reused, establish_session, token_of, secret_of, timed_out, context_done,
}

module _ (F : FileSystem) (codec : SessionCodec) (now : ℕ) where
  -- The session that a result stands for.
  abbrev pub session_of : SessionResult → PairedSession
  session_of r = record { session_token = r.token; session_secret = r.secret; saved_at = now }

  abbrev IsGranted : Text → F.State → SessionResult → F.State → Type 0
  IsGranted session_file s r t =
      (is_empty r.token ≡ false)
      × (t ≡ (
          if is_nonempty session_file
          then (save_session F codec session_file (session_of r) s).1
          else s))

  granted-IsGranted :
      (cloud : Cloud) (session_file device_token : Text) (s t : F.State)
      (o : Outcome (ApiResponse × Option ApiResponse)) (r : SessionResult)
      → granted cloud F codec now session_file device_token s o ≡ (returned r, t)
      → IsGranted session_file s r t
  granted-IsGranted cloud session_file device_token s t (failed err) r e = (cc, cc)
  granted-IsGranted cloud session_file device_token s t (returned (first, answer)) r e =
      by_tests (is_empty (token_of cloud answer)) cloud.done_after refl e
    where
      by_tests :
          (no_token is_done : Bool)
          → is_empty (token_of cloud answer) ≡ no_token
          → ◌≡◌ {A = Outcome SessionResult × F.State}
              (if no_token
                then (failed timed_out, s)
                else if is_done
                then (failed context_done, s)
                else (
                  returned (record {
                    token = token_of cloud answer;
                    secret = secret_of cloud answer;
                    device_token = device_token;
                    access = some first;
                  }),
                  saved_state cloud F codec now session_file answer s,
                ))
              (returned r, t)
          → IsGranted session_file s r t
      by_tests true is_done n e = (cc, cc)
      by_tests false true n e = (cc, cc)
      by_tests false false n e = (cc, cc)

  establish_session-IsGranted :
      (cloud : Cloud) (secret_to_token : Text → Option Text) (flags : CliFlags) (client_id : Text)
      (s t : F.State) (r : SessionResult)
      → is_empty flags.invite ≡ false
      → establish_session cloud F codec now secret_to_token flags client_id s ≡ (returned r, t)
      → IsGranted flags.session_file s r t
  establish_session-IsGranted cloud secret_to_token flags client_id s t r invited e =
      by_token (secret_to_token flags.invite) (
        subst
          (λ b.
            ◌≡◌ {A = Outcome SessionResult × F.State}
              (if b
                then (reused cloud F codec now (load_session F codec s flags.session_file), s)
                else paired cloud F codec now flags client_id s (secret_to_token flags.invite))
              (returned r, t))
          invited (unfold establish_session in e))
    where
      by_token :
          (token : Option Text)
          → paired cloud F codec now flags client_id s token ≡ (returned r, t)
          → IsGranted flags.session_file s r t
      by_token none e = (cc, cc)
      by_token (some token) e =
          granted-IsGranted cloud flags.session_file token s t
            (request_and_await cloud token (request_access flags.invite client_id flags.name)
              (codes "ACCESS_GRANTED") 60)
            r e

-- After a pairing whose session was saved and has a secret, a run without an invite that names the same
-- session file connects with the granted token and secret, whatever the cloud answers.
pub establish_session_reconnects :
    (F : FileSystem) (laws : IsLawful F) (codec : SessionCodec) (round : IsRoundTrip codec)
    (secret_to_token : Text → Option Text) (cloud next_cloud : Cloud) (now later : ℕ)
    (flags next_flags : CliFlags) (client_id next_id : Text) (s t : F.State) (r : SessionResult)
    → is_empty flags.invite ≡ false
    → is_empty next_flags.invite ≡ true
    → is_nonempty flags.session_file ≡ true
    → next_flags.session_file ≡ flags.session_file
    → establish_session cloud F codec now secret_to_token flags client_id s ≡ (returned r, t)
    → (save_session F codec flags.session_file (session_of F codec now r) s).0 ≡ done true
    → is_empty r.secret ≡ false
    → establish_session next_cloud F codec later secret_to_token next_flags next_id t ≡ (
      returned (record { token = r.token; secret = r.secret; device_token = []; access = none }),
      t,
    )
establish_session_reconnects F laws codec round secret_to_token cloud next_cloud now later flags
      next_flags client_id next_id s t r invited none_given named same e saved has_secret =
    let (has_token, left) =
      establish_session-IsGranted F codec now cloud secret_to_token flags client_id s t r invited
        e in
    reloaded has_token left
  where
    reloaded :
        is_empty r.token ≡ false
        → t ≡ (
            if is_nonempty flags.session_file
            then (save_session F codec flags.session_file (session_of F codec now r) s).1
            else s)
        → establish_session next_cloud F codec later secret_to_token next_flags next_id t ≡ (
          returned
              (record { token = r.token; secret = r.secret; device_token = []; access = none }),
          t,
        )
    reloaded has_token left =
        let loaded : load_session F codec t flags.session_file ≡ some (session_of F codec now r) =
          rw (left, named)
            (rw
              (
                load_session-save_session F laws codec flags.session_file (session_of F codec now r)
                    s round saved,
                has_token,
                has_secret,
              )
              refl) in
        unfold establish_session in rw (none_given, same, loaded) refl
