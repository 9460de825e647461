-- ===== src/ControlPlane/Ports.antt =====
-- The ports that projects get by default (crates/atomo_control_plane/src/provisioner.rs).
use atomo.Prelude.{ℕ, ◌+◌, ◌%◌, ◌^◌, ◌≤◌, ◌<◌, List, [], ◌∷◌, ◌≡◌, ◌∙◌, arith}
use atomo.ControlPlane.Provisioner.{sum_bytes, default_port}

abbrev pub sum : List ℕ → ℕ
sum [] = 0
sum (b ∷ bs) = b + sum bs

sum_bytes_lem : (acc : ℕ) (bs : List ℕ) → acc < 2 ^ 16 → sum_bytes acc bs ≡ (acc + sum bs) % 2 ^ 16
sum_bytes_lem acc [] h = omega (arith, h)
sum_bytes_lem acc (b ∷ bs) h = sum_bytes_lem ((acc + b) % 2 ^ 16) bs (omega arith) ∙ omega arith

-- A default port lies within the thousand from the base on, if those are ports, and depends on the sum of
-- the bytes of the id alone: ids with the same letters in another order share a port.
pub default_port_lem :
    (base : ℕ) (xs ys : List ℕ)
    → base + 1000 ≤ 2 ^ 16
    → sum xs ≡ sum ys
    → (base ≤ default_port base xs)
      × (default_port base xs < base + 1000)
      × (default_port base xs ≡ default_port base ys)
unfolding default_port
default_port_lem base xs ys h same = (
  omega (arith, h),
  omega (arith, h),
  omega (arith, sum_bytes_lem 0 xs (omega arith), sum_bytes_lem 0 ys (omega arith), same),
)
