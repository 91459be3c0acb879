-- ===== src/Api/Console.antt =====
-- internal/api/operations.go: the serial console, split into the sessions of the boots
-- (splitConsoleSessions, getVMConsole).
use ghostfleet.Base.{
  ℕ, ◌-◌, Bool, true, false, ◌&&◌, ◌||◌, not, List, [], ◌∷◌, ◌++◌, Option, none, some, Name, ◌==◌,
  if◌then◌else◌, leb, length, get_elem?, map,
}
use ghostfleet.Base.Monad.{Error}
use ghostfleet.Store.Vms.{get_managed_vm}
use ghostfleet.Store.Deployments.{get_deployment}
use ghostfleet.Orch.Driver.{Driver}
use ghostfleet.Orch.Fleet.{Site}
use ghostfleet.Orch.Tasks.{keep, drive}
use ghostfleet.Api.Reply.{H, reply, store_code, connect_code, calls}

pub record ConsoleSession : Type 0 where
  pub text : Name
  pub started_at : Name
  pub partial_boot : Bool

abbrev pub boot_banner : Name
boot_banner =
    b'L' ∷ b'i' ∷ b'n' ∷ b'u' ∷ b'x' ∷ b' ' ∷ b'v' ∷ b'e' ∷ b'r' ∷ b's' ∷ b'i' ∷ b'o' ∷ b'n' ∷ []

unfoldable pub starts_with : Name → Name → Bool
starts_with [] cs = true
starts_with (a ∷ as') [] = false
starts_with (a ∷ as') (c ∷ cs) = a == c && starts_with as' cs

-- `strings.Contains`.
unfoldable pub contains : Name → Name → Bool
unfolding starts_with
contains key [] = starts_with key []
contains key (c ∷ cs) = starts_with key (c ∷ cs) || contains key cs

abbrev pub add_byte : ℕ → List Name → List Name
add_byte c [] = (c ∷ []) ∷ []
add_byte c (l ∷ ls) = (c ∷ l) ∷ ls

-- `strings.Split(text, "\n")`.
unfoldable pub split_lines : Name → List Name
split_lines [] = [] ∷ []
split_lines (c ∷ cs) = let rest = split_lines cs in if c == 10 then [] ∷ rest else add_byte c rest

-- `start_time` reads the clock that the kernel logged, "" if there is none; `blank` tells a text of nothing
-- but white space.
module _ (start_time : Name → Name) (blank : Name → Bool) where
  unfoldable pub flush : Name → List ConsoleSession
  flush [] = []
  flush (c ∷ cs) =
      record {
        text = c ∷ cs;
        started_at = start_time (c ∷ cs);
        partial_boot = not (contains boot_banner (c ∷ cs));
      }
      ∷ []

  -- The loop over the lines: `cur` is the builder.
  unfoldable pub split_from : List Name → Name → List ConsoleSession
  unfolding flush
  split_from [] cur = flush cur
  split_from (line ∷ rest) cur =
      let boots = contains boot_banner line in
      let kept = if boots then [] else cur in
      let later = split_from rest (kept ++ line ++ (10 ∷ [])) in
      if boots then flush cur ++ later else later

  unfoldable pub split_console_sessions : Name → List ConsoleSession
  unfolding split_from
  split_console_sessions text = if blank text then [] else split_from (split_lines text) []

  pub record ConsoleReply : Type 0 where
    pub session_count : ℕ
    pub session : ℕ
    pub sessions : List (Name × Bool)
    pub console : Name

  abbrev text_at : Option ConsoleSession → Name
  text_at none = []
  text_at (some s) = s.text

  -- The session that the query names, if there is one, else the latest.
  unfoldable pub selected : Option ℕ → ℕ → ℕ
  selected none count = count
  selected (some n) count = if leb 1 n && leb n count then n else count

  unfoldable pub console_reply : Option ℕ → Name → ConsoleReply
  unfolding selected split_console_sessions
  console_reply query text =
      let sessions = split_console_sessions text in
      let n = selected query (length sessions) in
      record {
        session_count = length sessions;
        session = n;
        sessions = map (λ s. (s.started_at, s.partial_boot)) sessions;
        console = if n == 0 then [] else text_at (get_elem? sessions (n - 1));
      }

  bad_gateway : Error → ℕ
  bad_gateway e = 502

  unfoldable pub get_vm_console : {W : Type 0} → Driver W → ℕ → Option ℕ → H (Site W) ConsoleReply
  unfolding console_reply bad_gateway
  get_vm_console driver vm_id query = calls store_code (keep (get_managed_vm vm_id)) (λ vm.
      calls store_code (keep (get_deployment vm.deployment_id)) (λ d.
        calls connect_code (drive (driver.open_driver d.connection_id)) (λ u.
          calls bad_gateway (drive (driver.read_console vm.ref))
            (λ text. reply 200 (console_reply query text)))))
