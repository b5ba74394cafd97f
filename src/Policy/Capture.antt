-- ===== src/Policy/Capture.antt =====
-- What the policy layer uses of keyboard_evdev.KeyboardGrabber, and what it relies on.
use toothkey.Base.{◌≡◌, Bool, true, false}

pub record Capture : Type 1 where
  -- a KeyboardGrabber; what the kernel has granted; what a scan of /dev/input finds
  pub Object : Type 0
  pub Kernel : Type 0
  pub Scan : Type 0
  -- a new object, started
  pub start : Scan → Kernel → Bool × Object × Kernel
  pub stop : Object → Kernel → Kernel
  pub is_running : Object → Bool
  -- the reader thread ends by itself
  pub dies : Object → Kernel → Object × Kernel
  -- a round of the reader thread: it reads what is ready, drops what is gone and may scan again
  pub Round : Object → Kernel → Type 0
  pub works : (o : Object) (k : Kernel) → Round o k → Object × Kernel
  -- the object's grabs are just those that the kernel has; the kernel has none
  pub Holds : Object → Kernel → Type 0
  pub Idle : Kernel → Type 0
  pub start_holds : (s : Scan) (k : Kernel) → Idle k → Holds (start s k).1 (start s k).2
  pub start_running :
      (s : Scan) (k : Kernel) → Idle k → (start s k).0 ≡ true → is_running (start s k).1 ≡ true
  pub start_refused : (s : Scan) (k : Kernel) → Idle k → (start s k).0 ≡ false → Idle (start s k).2
  pub stop_idle : (o : Object) (k : Kernel) → Holds o k → Idle (stop o k)
  pub dead_idle : (o : Object) (k : Kernel) → Holds o k → is_running o ≡ false → Idle k
  pub dead_holds :
      (o : Object) (k k' : Kernel) → Holds o k → is_running o ≡ false → Idle k' → Holds o k'
  pub dies_holds : (o : Object) (k : Kernel) → Holds o k → Holds (dies o k).0 (dies o k).1
  pub works_holds :
      (o : Object) (k : Kernel) (r : Round o k) → Holds o k → Holds (works o k r).0 (works o k r).1
  pub round_runs : (o : Object) (k : Kernel) → Round o k → is_running o ≡ true
  pub works_running : (o : Object) (k : Kernel) (r : Round o k) → is_running (works o k r).0 ≡ true
  pub dies_stopped : (o : Object) (k : Kernel) → is_running (dies o k).0 ≡ false
