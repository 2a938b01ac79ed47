-- ===== src/Settings.antt =====
-- The settings subsystem of the operating system, `settings_load_one` and `settings_save_one`,
-- which the program calls and does not implement: an interface with the behaviour that its
-- documentation promises.
use cedar_switch_3i3o_power.Common.{ℤ, is_zero, is_pos, ◌≡◌, ◌≢◌, true}

-- Under each key `k` a value of type `V k`. `load k buffer s` is the return code and the buffer
-- afterwards; `save k v s` is the return code and the storage afterwards.
pub record Settings (K : Type 0) (V : K → Type 0) : Type 1 where
  pub Store : Type 0
  pub load : (k : K) → V k → Store → ℤ × V k
  pub save : (k : K) → V k → Store → ℤ × Store
  -- A load after a successful save of the key returns the size of the value, and the value.
  pub load-save :
      (k : K) (v buffer : V k) (s : Store)
      → is_zero (save k v s).0 ≡ true
      → (is_pos (load k buffer (save k v s).1).0 ≡ true) × ((load k buffer (save k v s).1).1 ≡ v)
  -- A save leaves the other keys alone.
  pub load-save_ne :
      (k j : K) (v : V k) (buffer : V j) (s : Store)
      → j ≢ k
      → load j buffer (save k v s).1 ≡ load j buffer s
