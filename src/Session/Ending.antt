-- ===== src/Session/Ending.antt =====
-- A save ends.
use teleport_client.Base.{
  ℕ, zero, suc, ◌-◌, ◌≤◌, ◌≡◌, ◌++◌, Bool, true, false, Option, none, some, Text, codes, arith,
}
use teleport_client.Session.{
  SessionCodec, PairedSession, FileSystem, Stage, making_dir, creating, setting_mode, writing,
  syncing, closing, renaming, opening_dir, syncing_dir, closing_dir, abandoning, removing, done,
  branch, created, save_step, save_steps, save_prefix, save_session, first_stage, data_of,
}

-- The most calls that a save still makes.
unfoldable calls_left : Stage → ℕ
calls_left making_dir = 10
calls_left creating = 9
calls_left (setting_mode name) = 8
calls_left (writing name) = 7
calls_left (syncing name) = 6
calls_left (closing name) = 5
calls_left (renaming name) = 4
calls_left opening_dir = 3
calls_left syncing_dir = 2
calls_left closing_dir = 1
calls_left (abandoning name) = 2
calls_left (removing name) = 1
calls_left (done ok) = 0

unfoldable pub is_done : Stage → Bool
unfolding calls_left
is_done stage = elim (calls_left stage) [ zero ↦ true | suc n ↦ false ]

module _ (F : FileSystem) where
  calls_left-branch :
      (r : F.State × Bool) (next failed : Stage) (k : ℕ)
      → calls_left next ≤ k
      → calls_left failed ≤ k
      → calls_left ((branch F r next failed).0) ≤ k
  calls_left-branch (s, true) next failed k h g = h
  calls_left-branch (s, false) next failed k h g = g

  calls_left-created : (r : F.State × Option Text) → calls_left ((created F r).0) ≤ 8
  unfolding calls_left
  calls_left-created (s, none) = omega arith
  calls_left-created (s, some name) = omega arith

  calls_left-save_step :
      (path bytes : Text) (stage : Stage) (s : F.State)
      → calls_left ((save_step F path bytes (stage, s)).0) ≤ calls_left stage - 1
  unfolding save_step calls_left
  calls_left-save_step path bytes making_dir s =
      calls_left-branch (F.mkdir_all s (F.dir path)) creating (done false) 9 (omega arith)
        (omega arith)
  calls_left-save_step path bytes creating s =
      calls_left-created (F.create_temp s (F.dir path) (F.base path ++ codes ".tmp-*"))
  calls_left-save_step path bytes (setting_mode name) s =
      calls_left-branch (F.chmod s name) (writing name) (abandoning name) 7 (omega arith)
        (omega arith)
  calls_left-save_step path bytes (writing name) s =
      calls_left-branch (F.write s name bytes) (syncing name) (abandoning name) 6 (omega arith)
        (omega arith)
  calls_left-save_step path bytes (syncing name) s =
      calls_left-branch (F.sync s name) (closing name) (abandoning name) 5 (omega arith)
        (omega arith)
  calls_left-save_step path bytes (closing name) s =
      calls_left-branch (F.close s name) (renaming name) (abandoning name) 4 (omega arith)
        (omega arith)
  calls_left-save_step path bytes (renaming name) s =
      calls_left-branch (F.rename s name path) opening_dir (abandoning name) 3 (omega arith)
        (omega arith)
  calls_left-save_step path bytes opening_dir s =
      calls_left-branch (F.open_dir s (F.dir path)) syncing_dir (done true) 2 (omega arith)
        (omega arith)
  calls_left-save_step path bytes syncing_dir s =
      calls_left-branch (F.sync_dir s (F.dir path)) closing_dir closing_dir 1 (omega arith)
        (omega arith)
  calls_left-save_step path bytes closing_dir s =
      calls_left-branch (F.close_dir s (F.dir path)) (done true) (done true) 0 (omega arith)
        (omega arith)
  calls_left-save_step path bytes (abandoning name) s =
      calls_left-branch (F.close s name) (removing name) (removing name) 1 (omega arith)
        (omega arith)
  calls_left-save_step path bytes (removing name) s =
      calls_left-branch (F.remove s name) (done false) (done false) 0 (omega arith) (omega arith)
  calls_left-save_step path bytes (done ok) s = omega arith

  calls_left-save_steps :
      (n : ℕ) (path bytes : Text) (m : Stage × F.State)
      → calls_left ((save_steps F n path bytes m).0) ≤ calls_left m.0 - n
  unfolding save_steps
  calls_left-save_steps zero path bytes m = omega arith
  calls_left-save_steps (suc n) path bytes (stage, s) = omega (
    arith,
    calls_left-save_steps n path bytes (save_step F path bytes (stage, s)),
    calls_left-save_step path bytes stage s,
  )

  is_done-calls_left : (stage : Stage) → calls_left stage ≤ 0 → is_done stage ≡ true
  unfolding is_done
  is_done-calls_left stage h = ground arith

  -- A save ends, whatever the calls return.
  pub is_done-save_session :
      (codec : SessionCodec) (path : Text) (session : PairedSession) (s : F.State)
      → is_done ((save_session F codec path session s).0) ≡ true
  unfolding save_session save_prefix
  is_done-save_session codec path session s =
      is_done-calls_left ((save_session F codec path session s).0) (
        omega (
          arith,
          calls_left-save_steps 10 path (data_of (codec.marshal session))
              (first_stage (codec.marshal session), s),
          from_first (codec.marshal session),
        ))
    where
      from_first : (o : Option Text) → calls_left (first_stage o) ≤ 10
      from_first none = unfold calls_left in omega arith
      from_first (some bytes) = unfold calls_left in omega arith
