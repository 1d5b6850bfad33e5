-- ===== src/Session.antt =====
-- session.go, `loadSession` and `saveSession`. The file system is an argument: a record of the calls of
-- `os` that the code makes, with the state each leaves and whether it returned no error. The JSON codec is
-- an argument too. `saveSession` is a machine with one step for each call, so that a crash between two
-- calls is a run of fewer steps.
pub mod Atomic
pub mod Ending
pub mod Reload
use teleport_client.Base.{
  ℕ, zero, suc, Bool, true, false, not, ◌||◌, Option, none, some, ◌++◌, Text, codes, is_empty,
  text_eq, if◌then◌else◌, ◌≡◌,
}

pub record PairedSession : Type 0 where
  pub session_token : Text
  pub session_secret : Text
  pub saved_at : ℕ

-- `json.MarshalIndent` and `json.Unmarshal` at this type.
pub record SessionCodec : Type 0 where
  pub marshal : PairedSession → Option Text
  pub unmarshal : Text → Option PairedSession

-- Each call gives the state it leaves and whether its error is nil. `contents` is the file that a path
-- names, if it names one.
pub record FileSystem : Type 1 where
  pub State : Type 0
  pub contents : State → Text → Option Text
  pub dir : Text → Text
  pub base : Text → Text
  pub mkdir_all : State → Text → State × Bool
  pub create_temp : State → Text → Text → State × Option Text
  pub chmod : State → Text → State × Bool
  pub write : State → Text → Text → State × Bool
  pub sync : State → Text → State × Bool
  pub close : State → Text → State × Bool
  pub rename : State → Text → Text → State × Bool
  pub remove : State → Text → State × Bool
  pub open_dir : State → Text → State × Bool
  pub sync_dir : State → Text → State × Bool
  pub close_dir : State → Text → State × Bool

abbrev pub is_named : Option Text → Text → Bool
is_named none q = false
is_named (some name) q = text_eq name q

abbrev pub appended : Option Text → Text → Option Text
appended none bytes = none
appended (some before) bytes = some (before ++ bytes)

-- The documented effects of the calls on the files. A write that fails may leave any part of the data in
-- its own file, and a rename or a removal that fails changes nothing.
pub record IsLawful (F : FileSystem) : Type 0 where
  pub contents-mkdir_all :
      (s : F.State) (d q : Text) → F.contents (F.mkdir_all s d).0 q ≡ F.contents s q
  pub contents-create_temp :
      (s : F.State) (d pattern q : Text)
      → F.contents (F.create_temp s d pattern).0 q
        ≡ (if is_named (F.create_temp s d pattern).1 q then some (codes "") else F.contents s q)
  pub create_temp_fresh :
      (s : F.State) (d pattern name : Text)
      → (F.create_temp s d pattern).1 ≡ some name
      → F.contents s name ≡ none
  pub create_temp_differs :
      (s : F.State) (path name : Text)
      → (F.create_temp s (F.dir path) (F.base path ++ codes ".tmp-*")).1 ≡ some name
      → text_eq name path ≡ false
  pub contents-chmod : (s : F.State) (n q : Text) → F.contents (F.chmod s n).0 q ≡ F.contents s q
  pub contents-write_others :
      (s : F.State) (n bytes q : Text)
      → text_eq n q ≡ false
      → F.contents (F.write s n bytes).0 q ≡ F.contents s q
  pub contents-write :
      (s : F.State) (n bytes : Text)
      → (F.write s n bytes).1 ≡ true
      → F.contents (F.write s n bytes).0 n ≡ appended (F.contents s n) bytes
  pub contents-sync : (s : F.State) (n q : Text) → F.contents (F.sync s n).0 q ≡ F.contents s q
  pub contents-close : (s : F.State) (n q : Text) → F.contents (F.close s n).0 q ≡ F.contents s q
  pub contents-rename :
      (s : F.State) (from to q : Text)
      → F.contents (F.rename s from to).0 q ≡ (
          if not (F.rename s from to).1
          then F.contents s q
          else if text_eq to q
          then F.contents s from
          else if text_eq from q
          then none
          else F.contents s q)
  pub contents-remove :
      (s : F.State) (n q : Text)
      → F.contents (F.remove s n).0 q ≡ (
          if (F.remove s n).1 then if text_eq n q then none else F.contents s q else F.contents s q)
  pub contents-open_dir :
      (s : F.State) (d q : Text) → F.contents (F.open_dir s d).0 q ≡ F.contents s q
  pub contents-sync_dir :
      (s : F.State) (d q : Text) → F.contents (F.sync_dir s d).0 q ≡ F.contents s q
  pub contents-close_dir :
      (s : F.State) (d q : Text) → F.contents (F.close_dir s d).0 q ≡ F.contents s q

-- `loadSession`; an error is `none`.
abbrev pub checked_session : Option PairedSession → Option PairedSession
checked_session none = none
checked_session (some s) =
    if is_empty s.session_token || is_empty s.session_secret then none else some s

abbrev pub decoded_session : SessionCodec → Option Text → Option PairedSession
decoded_session codec none = none
decoded_session codec (some bytes) = checked_session (codec.unmarshal bytes)

-- The call that `saveSession` makes next, with the name of the temporary file; `abandoning` and `removing`
-- are the two calls of the deferred function.
pub data Stage : Type 0 where
  making_dir : Stage
  creating : Stage
  setting_mode : Text → Stage
  writing : Text → Stage
  syncing : Text → Stage
  closing : Text → Stage
  renaming : Text → Stage
  opening_dir : Stage
  syncing_dir : Stage
  closing_dir : Stage
  abandoning : Text → Stage
  removing : Text → Stage
  done : Bool → Stage

abbrev pub first_stage : Option Text → Stage
first_stage none = done false
first_stage (some bytes) = making_dir

abbrev pub data_of : Option Text → Text
data_of none = codes ""
data_of (some bytes) = bytes

module _ (F : FileSystem) where
  unfoldable pub load_session : SessionCodec → F.State → Text → Option PairedSession
  load_session codec s path = decoded_session codec (F.contents s path)

  abbrev pub branch : F.State × Bool → Stage → Stage → Stage × F.State
  branch (s, ok) next failed = (if ok then next else failed, s)

  abbrev pub created : F.State × Option Text → Stage × F.State
  created (s, none) = (done false, s)
  created (s, some name) = (setting_mode name, s)

  unfoldable pub save_step : Text → Text → Stage × F.State → Stage × F.State
  save_step path bytes (making_dir, s) = branch (F.mkdir_all s (F.dir path)) creating (done false)
  save_step path bytes (creating, s) =
      created (F.create_temp s (F.dir path) (F.base path ++ codes ".tmp-*"))
  save_step path bytes (setting_mode name, s) =
      branch (F.chmod s name) (writing name) (abandoning name)
  save_step path bytes (writing name, s) =
      branch (F.write s name bytes) (syncing name) (abandoning name)
  save_step path bytes (syncing name, s) = branch (F.sync s name) (closing name) (abandoning name)
  save_step path bytes (closing name, s) = branch (F.close s name) (renaming name) (abandoning name)
  save_step path bytes (renaming name, s) =
      branch (F.rename s name path) opening_dir (abandoning name)
  save_step path bytes (opening_dir, s) = branch (F.open_dir s (F.dir path)) syncing_dir (done true)
  save_step path bytes (syncing_dir, s) = branch (F.sync_dir s (F.dir path)) closing_dir closing_dir
  save_step path bytes (closing_dir, s) =
      branch (F.close_dir s (F.dir path)) (done true) (done true)
  save_step path bytes (abandoning name, s) =
      branch (F.close s name) (removing name) (removing name)
  save_step path bytes (removing name, s) = branch (F.remove s name) (done false) (done false)
  save_step path bytes (done ok, s) = (done ok, s)

  unfoldable pub save_steps : ℕ → Text → Text → Stage × F.State → Stage × F.State
  unfolding save_step
  save_steps zero path bytes m = m
  save_steps (suc n) path bytes m = save_steps n path bytes (save_step path bytes m)

  -- The first `n` calls of `saveSession`.
  unfoldable pub save_prefix : SessionCodec → ℕ → Text → PairedSession → F.State → Stage × F.State
  unfolding save_steps
  save_prefix codec n path session s =
      save_steps n path (data_of (codec.marshal session)) (first_stage (codec.marshal session), s)

  -- The longest run makes ten calls.
  unfoldable pub save_session : SessionCodec → Text → PairedSession → F.State → Stage × F.State
  unfolding save_prefix
  save_session codec path session s = save_prefix codec 10 path session s
