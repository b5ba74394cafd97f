-- ===== src/Tray/Link.antt =====
-- WorkerLink: the tray's end of the socket to the worker. Connections are numbers.
pub mod Signals
mod Tests
use Prim.Native.String.{String}
use toothkey.Base.{
  ℕ, Bool, true, false, not, Option, none, some, List, [], ◌∷◌, ◌++◌, is_empty, if◌then◌else◌,
  remove, ℕ_discrete, Text,
}

-- the messages that the tray writes, as far as the link knows them
pub data Message : Type 0 where
  client_hello : List (Text × Text) → Message
  ask_shutdown : Message
  request : ℕ → Message

-- `_conn`, the connection that `_wfh` writes to, `_worker_pid`, the reader threads that run, by
-- their connections, and what has been written
pub record Link : Type 0 where
  pub conn : Option ℕ
  pub wfh : Option ℕ
  pub worker_pid : Option ℕ
  pub readers : List ℕ
  pub written : List (ℕ × Message)

-- `close`: a reader thread that still runs keeps its file, and with it the connection
unfoldable pub close : Link → Link
close l = record l { conn = none; wfh = none; worker_pid = none }

-- `send`, and whether the write goes well
unfoldable pub send : Message → Bool → Link → Link
send m succeeds l = elim (l.wfh) [
  | none ↦ l
  | some c ↦
      if succeeds then record l { written = l.written ++ (c, m) ∷ [] } else record l { wfh = none }
]

unfoldable pub request_shutdown : Bool → Link → Link
unfolding send
request_shutdown succeeds l = send ask_shutdown succeeds l

-- a call of `connect` before the deadline: no file or nobody who listens, another error, or a
-- connection
pub data Connect : Type 0 where
  refused : Connect
  other_error : Connect
  connected : ℕ → Connect

-- the loop of `start`: the connection, if one comes before the deadline, where the list ends
abbrev pub first_connection : List Connect → Option ℕ
first_connection [] = none
first_connection (refused ∷ attempts) = first_connection attempts
first_connection (other_error ∷ attempts) = none
first_connection (connected c ∷ attempts) = some c

-- the variables that are set, of those that the worker is told
abbrev pub session_env : List (Text × Option Text) → List (Text × Text)
session_env [] = []
session_env ((k, none) ∷ vars) = session_env vars
session_env ((k, some v) ∷ vars) =
    let rest = session_env vars in if is_empty v then rest else (k, v) ∷ rest

-- `start`, with the environment and whether the hello can be written; the second part is false if
-- it raises
unfoldable pub start : List Connect → List (Text × Option Text) → Bool → Link → Link × Bool
unfolding close send
start attempts vars succeeds l = elim (first_connection attempts) [
  | none ↦ (close l, false)
  | some c ↦ (
    send (client_hello (session_env vars)) succeeds
        (record (close l) { conn = some c; wfh = some c; readers = l.readers ++ c ∷ [] }),
    true,
  )
]

-- what a line from the worker is
pub data Line {ℓ} (A : Type ℓ) : Type ℓ where
  blank : Line A
  bad_json : Line A
  not_object : Line A
  state : A → Line A
  shutdown_ack : Line A
  hello : Option ℕ → Line A
  unknown : Line A

-- the signals of the link
pub data Signal {ℓ} (A : Type ℓ) : Type ℓ where
  state_changed : A → Signal A
  acked : Signal A
  worker_gone : Signal A

-- `_reader_loop` over the lines up to the end of the stream; a value that is no object has no `get`,
-- and the exception ends the loop
unfoldable pub reader_loop {ℓ} : {A : Type ℓ} → List (Line A) → List (Signal A)
reader_loop [] = worker_gone ∷ []
reader_loop (blank ∷ lines) = reader_loop lines
reader_loop (bad_json ∷ lines) = reader_loop lines
reader_loop (not_object ∷ lines) = worker_gone ∷ []
reader_loop (state s ∷ lines) = state_changed s ∷ reader_loop lines
reader_loop (shutdown_ack ∷ lines) = acked ∷ reader_loop lines
reader_loop (hello pid ∷ lines) = reader_loop lines
reader_loop (unknown ∷ lines) = reader_loop lines

-- `_worker_pid` after the lines
unfoldable pub pid_after {ℓ} : {A : Type ℓ} → List (Line A) → Option ℕ → Option ℕ
pid_after [] pid = pid
pid_after (blank ∷ lines) pid = pid_after lines pid
pid_after (bad_json ∷ lines) pid = pid_after lines pid
pid_after (not_object ∷ lines) pid = pid
pid_after (state s ∷ lines) pid = pid_after lines pid
pid_after (shutdown_ack ∷ lines) pid = pid_after lines pid
pid_after (hello new ∷ lines) pid = pid_after lines new
pid_after (unknown ∷ lines) pid = pid_after lines pid

-- the end of a reader thread
unfoldable pub reader_ends : ℕ → Link → Link
reader_ends c l = record l { readers = remove ℕ_discrete (l.readers) c }
