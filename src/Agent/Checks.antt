-- ===== src/Agent/Checks.antt =====
-- The local checks of crates/agent/src/checks. What the operating system answers is a parameter, and
-- so are the floating-point numbers: their comparison and how they print.
pub mod Honesty
mod Tests
use monitra.Base.{
  ℕ, String, ◌<>◌, Bool, true, false, Option, none, some, List, [], ◌∷◌, ◌||◌, ◌==◌ as eq,
  if◌then◌else◌, str_eq as ◌==◌,
}
use monitra.Base.Text.{trim}
use monitra.Probe.{ProbeOutcome, success, failure, unavailable}

-- What `systemctl is-active` gave: its error, or its output and its error output.
pub data Ran : Type 0 where
  not_started : String → Ran
  output : String → String → Ran

abbrev pub any_eq : String → List String → Bool
any_eq text [] = false
any_eq text (state ∷ states) = text == state || any_eq text states

abbrev pub down_states : List String
down_states = "inactive" ∷ "failed" ∷ "activating" ∷ "deactivating" ∷ "reloading" ∷ []

-- The three branches on the trimmed output.
unfoldable pub systemd_outcome : String → String → String → ℕ → ProbeOutcome
systemd_outcome unit stdout stderr latency_ms =
    if stdout == "active"
    then success latency_ms
    else (if any_eq stdout down_states
        then failure (unit <> ": systemctl reports '" <> stdout <> "'")
        else unavailable (
            unit
            <> ": systemctl returned an unrecognized status '"
            <> stdout
            <> "' (stderr: "
            <> trim stderr
            <> ")"))

unfoldable pub check_systemd_with : String → String → Ran → ℕ → ProbeOutcome
unfolding systemd_outcome
check_systemd_with systemctl_bin unit (not_started error) latency_ms =
    unavailable
      ("agent: failed to run '" <> systemctl_bin <> " is-active " <> unit <> "': " <> error)
check_systemd_with systemctl_bin unit (output stdout stderr) latency_ms =
    systemd_outcome unit (trim stdout) stderr latency_ms

-- An entry of `/proc`: whether its name is a number, and what its `comm` holds if it can be read.
pub record ProcEntry : Type 0 where
  pub is_pid : Bool
  pub comm : Option String

abbrev pub is_process : String → Option String → Bool
is_process name none = false
is_process name (some comm) = trim comm == name

unfoldable pub scan : String → ℕ → List ProcEntry → ProbeOutcome
scan name latency_ms [] = failure ("no running process named '" <> name <> "'")
scan name latency_ms (entry ∷ entries) =
    let rest = scan name latency_ms entries in
    if entry.is_pid then (if is_process name entry.comm then success latency_ms else rest) else rest

-- The directory's entries, or why it could not be read.
pub data ProcDir : Type 0 where
  unreadable : String → ProcDir
  entries : List ProcEntry → ProcDir

unfoldable pub check_process_in : String → String → ℕ → ProcDir → ProbeOutcome
unfolding scan
check_process_in proc_dir name latency_ms (unreadable error) =
    unavailable ("agent: failed to read " <> proc_dir <> ": " <> error)
check_process_in proc_dir name latency_ms (entries es) = scan name latency_ms es

-- What `statvfs` gives: the blocks available and all blocks.
pub data Statvfs : Type 0 where
  failed : String → Statvfs
  stats : ℕ → ℕ → Statvfs

-- `f64`, as far as the check uses it: the percentage of free blocks, `<`, and `{:.1}`.
pub record Float (F : Type 0) : Type 0 where
  pub percentage : ℕ → ℕ → F
  pub lt : F → F → Bool
  pub show : F → String

unfoldable pub check_disk : {F : Type 0} → Float F → String → F → ℕ → Statvfs → ProbeOutcome
check_disk float path min_free_pct latency_ms (failed error) =
    unavailable ("agent: statvfs(" <> path <> ") failed: " <> error)
check_disk float path min_free_pct latency_ms (stats f_bavail f_blocks) =
    let free_pct = float.percentage f_bavail f_blocks in
    if eq f_blocks 0
    then unavailable ("agent: statvfs(" <> path <> ") reported zero total blocks")
    else (if float.lt free_pct min_free_pct
        then failure (
            path
            <> ": "
            <> float.show free_pct
            <> "% free, below the "
            <> float.show min_free_pct
            <> "% threshold")
        else success latency_ms)
