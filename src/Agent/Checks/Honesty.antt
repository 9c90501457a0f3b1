-- ===== src/Agent/Checks/Honesty.antt =====
-- What the checks say of their targets.
use monitra.Base.{
  ℕ, String, ◌≡◌, refl, Bool, true, false, not, ◌&&◌, ◌||◌, List, [], ◌∷◌, arith, str_eq, ◌==◌,
}
use monitra.Base.Text.{trim}
use monitra.Probe.{ProbeOutcome, success, failure, unavailable}
use monitra.Agent.Checks.{
  Ran, not_started, output, any_eq, down_states, systemd_outcome, check_systemd_with, ProcEntry,
  is_process, scan, ProcDir, unreadable, entries, check_process_in, Statvfs, failed, stats, Float,
  check_disk,
}

-- What an outcome says of the target: that it is up, that it is down, or nothing.
abbrev pub says_up : ProbeOutcome → Bool
says_up (success latency_ms) = true
says_up (failure message) = false
says_up (unavailable message) = false

abbrev pub says_down : ProbeOutcome → Bool
says_down (success latency_ms) = false
says_down (failure message) = true
says_down (unavailable message) = false

abbrev pub reports : Ran → String → Bool
reports (not_started error) text = false
reports (output stdout stderr) text = str_eq (trim stdout) text

abbrev pub reports_down : Ran → Bool
reports_down (not_started error) = false
reports_down (output stdout stderr) = any_eq (trim stdout) down_states

-- A unit is up exactly if `systemctl` ran and reported `active`, and down exactly if it ran and
-- reported, instead, one of the five states that are known to be down. An unknown state, and a
-- command that did not run, say nothing of the unit.
pub check_systemd_lem :
    (bin unit : String) (ran : Ran) (latency : ℕ)
    → let outcome = check_systemd_with bin unit ran latency in
      (says_up outcome ≡ reports ran "active")
      × (says_down outcome ≡ (not (reports ran "active") && reports_down ran))
unfolding check_systemd_with systemd_outcome
check_systemd_lem bin unit (not_started error) latency = (refl, refl)
check_systemd_lem bin unit (output stdout stderr) latency = ground arith

-- Whether some entry whose name is a number has that name in its `comm`.
abbrev pub runs : String → List ProcEntry → Bool
runs name [] = false
runs name (entry ∷ es) = (entry.is_pid && is_process name entry.comm) || runs name es

abbrev pub runs_in : String → ProcDir → Bool
runs_in name (unreadable error) = false
runs_in name (entries es) = runs name es

abbrev pub is_readable : ProcDir → Bool
is_readable (unreadable error) = false
is_readable (entries es) = true

scan_lem :
    (name : String) (latency : ℕ) (es : List ProcEntry)
    → (says_up (scan name latency es) ≡ runs name es)
      × (says_down (scan name latency es) ≡ not (runs name es))
unfolding scan
scan_lem name latency [] = (refl, refl)
scan_lem name latency (entry ∷ es) = ground (arith, scan_lem name latency es)

-- A process is up exactly if the directory could be read and some entry with a number for a name
-- has it in its `comm`, and down exactly if the directory could be read and none has; an entry that
-- cannot be read is passed over.
pub check_process_lem :
    (proc_dir name : String) (latency : ℕ) (dir : ProcDir)
    → let outcome = check_process_in proc_dir name latency dir in
      (says_up outcome ≡ runs_in name dir)
      × (says_down outcome ≡ (is_readable dir && not (runs_in name dir)))
unfolding check_process_in
check_process_lem proc_dir name latency (unreadable error) = (refl, refl)
check_process_lem proc_dir name latency (entries es) = ground (arith, scan_lem name latency es)

abbrev pub is_short : {F : Type 0} → Float F → F → Statvfs → Bool
is_short float min_free_pct (failed error) = false
is_short float min_free_pct (stats available blocks) =
    not (blocks == 0) && float.lt (float.percentage available blocks) min_free_pct

abbrev pub is_measured : Statvfs → Bool
is_measured (failed error) = false
is_measured (stats available blocks) = not (blocks == 0)

-- A disk is down exactly if its file system could be measured and has less than the threshold free,
-- and up exactly if it could be measured and has not; a system of no blocks, like one that gives an
-- error, says nothing.
pub check_disk_lem :
    {F : Type 0} (float : Float F) (path : String) (min_free_pct : F) (latency : ℕ) (vfs : Statvfs)
    → let outcome = check_disk float path min_free_pct latency vfs in
      (says_down outcome ≡ is_short float min_free_pct vfs)
      × (says_up outcome ≡ (is_measured vfs && not (is_short float min_free_pct vfs)))
unfolding check_disk
check_disk_lem float path min_free_pct latency (failed error) = (refl, refl)
check_disk_lem float path min_free_pct latency (stats available blocks) = ground arith
