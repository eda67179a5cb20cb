-- ===== src/Download/Table.antt =====
-- src/hawkbit-client.c: the download thread as a table of the moves that it can make.
use rauc_hawkbit_updater.Base.{
  ◌&&◌, some, str_eq, arith, ◌≢◌, ℕ, suc, String, Bool, true, false, ◌≡◌, ◌⊎◌,
}
use rauc_hawkbit_updater.GError.{GError, prefix_error}
use rauc_hawkbit_updater.Exec.{Outcome, done, fail, crash}
use rauc_hawkbit_updater.World.{
  ActionState, state_none, canceled, error, success, downloading, installing, cancel_requested,
  state_eq, Artifact,
}
use rauc_hawkbit_updater.World.Quiet.{Shared}
use rauc_hawkbit_updater.Download.{
  Pc, starting, attempting, resuming, verified, last_chance, ready, downloaded, report_err,
  finished, matches_any, resumable_codes,
}

-- The places right before a test for a cancelation.
abbrev pub is_testing : Pc → Bool
is_testing starting = true
is_testing resuming = true
is_testing last_chance = true
is_testing _ = false

-- From a place and a state to the next ones, and whether the condition is signalled; for a thread
-- that resumes downloads or not, of an artifact that is for download only or not.
pub data Move (artifact : Artifact) (resume only : Bool)
    : Pc → ActionState → Bool → Pc → ActionState → Type 0 where
  begins :
      {st : ActionState}
      → state_eq st cancel_requested ≡ false
      → Move artifact resume only starting st false attempting downloading
  is_canceled :
      {pc : Pc} {st : ActionState}
      → is_testing pc ≡ true
      → state_eq st cancel_requested ≡ true
      → Move artifact resume only pc st true (finished false) canceled
  arrives :
      (sum : String) (speed : ℕ) {st : ActionState}
      → Move artifact resume only attempting st false (downloaded sum speed) st
  breaks :
      (e : GError) {st : ActionState}
      → (resume && matches_any (some e) resumable_codes) ≡ false
      → Move artifact resume only attempting st false
          (report_err (prefix_error "Download failed: " e))
          st
  is_cut_off :
      (e : GError) {st : ActionState}
      → resume ≡ true
      → matches_any (some e) resumable_codes ≡ true
      → Move artifact resume only attempting st false resuming st
  resumes :
      {st : ActionState}
      → state_eq st cancel_requested ≡ false
      → Move artifact resume only resuming st false attempting st
  matches :
      {sum : String} {speed : ℕ} {st : ActionState}
      → str_eq artifact.sha1 sum ≡ true
      → Move artifact resume only (downloaded sum speed) st false verified st
  differs :
      {sum : String} {speed : ℕ} {st : ActionState} (e : GError)
      → str_eq artifact.sha1 sum ≡ false
      → Move artifact resume only (downloaded sum speed) st false (report_err e) st
  is_kept :
      {st : ActionState}
      → only ≡ true
      → Move artifact resume only verified st false (finished true) success
  goes_on :
      {st : ActionState} → only ≡ false → Move artifact resume only verified st false last_chance st
  defers :
      {st : ActionState}
      → state_eq st cancel_requested ≡ false
      → artifact.do_install ≡ false
      → Move artifact resume only last_chance st false (finished true) state_none
  installs :
      {st : ActionState}
      → state_eq st cancel_requested ≡ false
      → artifact.do_install ≡ true
      → Move artifact resume only last_chance st true ready installing
  returns : (r : Bool) {st : ActionState} → Move artifact resume only ready st false (finished r) st
  reports :
      {e : GError} {st : ActionState}
      → Move artifact resume only (report_err e) st true (finished false) error
  is_over :
      {r : Bool} {st : ActionState}
      → Move artifact resume only (finished r) st false (finished r) st

-- A step makes one move of the table, and beside it leaves the mutex free, the action's id and the
-- flag of the thread as they were.
abbrev pub Takes : Artifact → Bool → Bool → Pc → Shared → Outcome Pc → Shared → Type 0
Takes artifact resume only pc v (done pc') u =
    (u.locked ≡ false)
    × (u.action.id ≡ v.action.id)
    × (u.thread_download ≡ v.thread_download)
    × ((Move artifact resume only pc v.action.state false pc' u.action.state
          × (u.signals_sent ≡ v.signals_sent))
        ⊎ (Move artifact resume only pc v.action.state true pc' u.action.state
            × (u.signals_sent ≡ suc v.signals_sent)))
Takes artifact resume only pc v (fail e) u = ⊥
Takes artifact resume only pc v (crash c) u = Unit

pub requested_ne : (st : ActionState) → state_eq st cancel_requested ≡ false → st ≢ cancel_requested
requested_ne st n e = ground arith
