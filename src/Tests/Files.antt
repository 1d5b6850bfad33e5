-- ===== src/Tests/Files.antt =====
-- A file system in memory and a codec of sessions, which meet what session.go assumes of them.
use teleport_client.Base.{
  ℕ, zero, suc, ◌-◌, ◌≡◌, refl, subst, Bool, true, false, not, Option, none, some, List, [], ◌∷◌,
  ◌++◌, map, Text, codes, text_eq, text_eq_refl, if◌then◌else◌, arith, length, replicate,
  length-replicate, has_byte, split_on, split_on-append, split_on-line,
}
use teleport_client.Session.{FileSystem, IsLawful, SessionCodec, PairedSession, appended, is_named}
use teleport_client.Session.Reload.{IsRoundTrip}

abbrev pub Files : Type 0
Files = Text → Option Text

abbrev pub update : Text → Option Text → Files → Files
update n content s q = if text_eq n q then content else s q

abbrev pub temp_in : Option Text → Files → Text → Files × Option Text
temp_in none s name = (update name (some (codes "")) s, some name)
temp_in (some before) s name = (s, none)

abbrev pub written : Option Text → Files → Text → Text → Files × Bool
written none s n bytes = (s, false)
written (some before) s n bytes = (update n (some (before ++ bytes)) s, true)

abbrev pub renamed : Option Text → Files → Text → Text → Files × Bool
renamed none s from to = (s, false)
renamed (some content) s from to = (update to (some content) (update from none s), true)

abbrev pub removed : Option Text → Files → Text → Files × Bool
removed none s n = (s, false)
removed (some content) s n = (update n none s, true)

contents-removed :
    (o : Option Text) (s : Files) (n q : Text)
    → (removed o s n).0 q ≡ (if (removed o s n).1 then if text_eq n q then none else s q else s q)
contents-removed none s n q = refl
contents-removed (some content) s n q = refl

succeeds :
    (o : Option Text) (s : Files) (n content : Text) → o ≡ some content → (removed o s n).1 ≡ true
succeeds none s n content e = cc
succeeds (some before) s n content e = refl

pub removed-succeeds :
    (s : Files) (n content : Text) → s n ≡ some content → (removed (s n) s n).1 ≡ true
removed-succeeds s n content e = succeeds (s n) s n content e

-- Files of which renames succeed, or none does.
abbrev pub memory_files : Bool → FileSystem
memory_files renames = record {
  State = Files;
  contents = λ s q. s q;
  dir = λ path. path;
  base = λ path. [];
  mkdir_all = λ s d. (s, true);
  create_temp = λ s d pattern. temp_in (s (d ++ pattern)) s (d ++ pattern);
  chmod = λ s n. (s, true);
  write = λ s n bytes. written (s n) s n bytes;
  sync = λ s n. (s, true);
  close = λ s n. (s, true);
  rename = λ s from to. renamed (if renames then s from else none) s from to;
  remove = λ s n. removed (s n) s n;
  open_dir = λ s d. (s, true);
  sync_dir = λ s d. (s, true);
  close_dir = λ s d. (s, true);
}

temp_in-contents :
    (o : Option Text) (s : Files) (name q : Text)
    → (temp_in o s name).0 q ≡ (if is_named (temp_in o s name).1 q then some (codes "") else s q)
temp_in-contents none s name q = refl
temp_in-contents (some before) s name q = refl

temp_in-name :
    (o : Option Text) (s : Files) (name given : Text)
    → (temp_in o s name).1 ≡ some given
    → (o ≡ none) × (name ≡ given)
temp_in-name none s name given e = (refl, cc)
temp_in-name (some before) s name given e = (cc, cc)

text_eq-longer : (p suffix : Text) (c : ℕ) → text_eq (p ++ c ∷ suffix) p ≡ false
unfolding text_eq
text_eq-longer [] suffix c = refl
text_eq-longer (d ∷ p) suffix c = ground (arith, text_eq-longer p suffix c)

written-others :
    (o : Option Text) (s : Files) (n bytes q : Text)
    → text_eq n q ≡ false
    → (written o s n bytes).0 q ≡ s q
written-others none s n bytes q e = refl
written-others (some before) s n bytes q e = rw e refl

written-contents :
    (o : Option Text) (s : Files) (n bytes : Text)
    → (written o s n bytes).1 ≡ true
    → (written o s n bytes).0 n ≡ appended o bytes
written-contents none s n bytes ok = cc
written-contents (some before) s n bytes ok = rw (text_eq_refl n) refl

renamed-contents :
    (renames : Bool) (o : Option Text) (s : Files) (from to q : Text)
    → (renamed (if renames then o else none) s from to).0 q ≡ (
        if not (renamed (if renames then o else none) s from to).1
        then s q
        else if text_eq to q
        then o
        else if text_eq from q
        then none
        else s q)
renamed-contents false o s from to q = refl
renamed-contents true none s from to q = refl
renamed-contents true (some content) s from to q = refl

pub memory_files-IsLawful : (renames : Bool) → IsLawful (memory_files renames)
memory_files-IsLawful renames = record {
  contents-mkdir_all = λ s d q. refl;
  contents-create_temp = λ s d pattern q. temp_in-contents (s (d ++ pattern)) s (d ++ pattern) q;
  create_temp_fresh = λ s d pattern name e. fresh s (d ++ pattern) name e;
  create_temp_differs = λ s path name e. differs s path name e;
  contents-chmod = λ s n q. refl;
  contents-write_others = λ s n bytes q e. written-others (s n) s n bytes q e;
  contents-write = λ s n bytes ok. written-contents (s n) s n bytes ok;
  contents-sync = λ s n q. refl;
  contents-close = λ s n q. refl;
  contents-rename = λ s from to q. renamed-contents renames (s from) s from to q;
  contents-remove = λ s n q. contents-removed (s n) s n q;
  contents-open_dir = λ s d q. refl;
  contents-sync_dir = λ s d q. refl;
  contents-close_dir = λ s d q. refl;
}
  where
    fresh :
        (s : Files) (wanted name : Text)
        → (temp_in (s wanted) s wanted).1 ≡ some name
        → s name ≡ none
    fresh s wanted name e =
        let (absent, same) = temp_in-name (s wanted) s wanted name e in
        subst (λ n. s n ≡ none) same absent

    differs :
        (s : Files) (path name : Text)
        → (temp_in (s (path ++ codes ".tmp-*")) s (path ++ codes ".tmp-*")).1 ≡ some name
        → text_eq name path ≡ false
    differs s path name e =
        let (absent, same) =
          temp_in-name (s (path ++ codes ".tmp-*")) s (path ++ codes ".tmp-*") name e in
        subst (λ n. text_eq n path ≡ false) same (text_eq-longer path (codes "tmp-*") b'.')

-- Bytes one higher, between zeros.
abbrev pub lowered : Text → Text
lowered = map (λ c. c - 1)

abbrev pub session_of_parts : List Text → Option PairedSession
session_of_parts (a ∷ b ∷ c ∷ []) =
    some (record { session_token = lowered a; session_secret = lowered b; saved_at = length c })
session_of_parts _ = none

abbrev pub raised : Text → Text
raised = map suc

abbrev pub plain_codec : SessionCodec
plain_codec = record {
  marshal = λ session. some (
      (raised session.session_token ++ 0 ∷ raised session.session_secret)
      ++ 0 ∷ replicate session.saved_at 1);
  unmarshal = λ bytes. session_of_parts (split_on 0 bytes);
}

has_byte-raised : (s : Text) → has_byte 0 (raised s) ≡ false
unfolding has_byte
has_byte-raised [] = refl
has_byte-raised (c ∷ s) = ground (arith, has_byte-raised s)

has_byte-replicate : (n : ℕ) → has_byte 0 (replicate n 1) ≡ false
unfolding has_byte
has_byte-replicate zero = refl
has_byte-replicate (suc n) = ground (arith, has_byte-replicate n)

lowered-raised : (s : Text) → lowered (raised s) ≡ s
lowered-raised [] = refl
lowered-raised (c ∷ s) = ground (arith, lowered-raised s)

pub plain_codec-IsRoundTrip : IsRoundTrip plain_codec
plain_codec-IsRoundTrip session bytes e = decoded session bytes cc
  where
    split_session :
        (session : PairedSession)
        → split_on 0 (
            (raised session.session_token ++ 0 ∷ raised session.session_secret)
            ++ 0 ∷ replicate session.saved_at 1)
          ≡ raised session.session_token
            ∷ raised session.session_secret
            ∷ replicate session.saved_at 1
            ∷ []
    split_session session =
        rw
          (
            split_on-append 0 (raised session.session_token ++ 0 ∷ raised session.session_secret)
                (replicate session.saved_at 1) (has_byte-replicate session.saved_at),
            split_on-append 0 (raised session.session_token) (raised session.session_secret)
                (has_byte-raised session.session_secret),
            split_on-line 0 (raised session.session_token) (has_byte-raised session.session_token),
          )
          refl

    decoded :
        (session : PairedSession) (bytes : Text)
        → (raised session.session_token ++ 0 ∷ raised session.session_secret)
            ++ 0 ∷ replicate session.saved_at 1
          ≡ bytes
        → session_of_parts (split_on 0 bytes) ≡ some session
    decoded session bytes same =
        subst (λ b. session_of_parts (split_on 0 b) ≡ some session) same
          (rw
            (
              split_session session,
              lowered-raised session.session_token,
              lowered-raised session.session_secret,
              length-replicate {A = ℕ} session.saved_at 1,
            )
            refl)
