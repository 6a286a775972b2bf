-- ===== src/Tmpfs/Contents/Growth.antt =====
-- src/fs_tmpfs.c: the buffer of a file, which `tmpfs_write` makes larger where it has to.
use nycu_osdi.Prelude.{
  ℕ, zero, suc, ◌+◌, ◌*◌, ◌^◌, ◌≤◌, ◌<◌, ◌≡◌, refl, ap, true, some, arith, ltb, if◌then◌else◌,
  Bool-cases, inl, inr, pow-suc, add-zero,
}
use nycu_osdi.Tmpfs.{Node, file}
use nycu_osdi.Tmpfs.Files.{grow, move, reserve_bytes}

-- Doubling from 2 ^ k on reaches every size up to 2 ^ (k + n) within `n` rounds.
pub grow_lem :
    (n k capacity required : ℕ)
    → 2 ^ k ≤ capacity
    → required ≤ 2 ^ (k + n)
    → (required ≤ grow n capacity required) × (capacity ≤ grow n capacity required)
unfolding grow
grow_lem zero k capacity required low high =
    (omega (arith, low, (rw (add-zero k) at high)), omega arith)
grow_lem (suc n) k capacity required low high =
    let shift : k + suc n ≡ suc k + n = omega arith in
    let (reached, more) =
      grow_lem n (suc k) (capacity * 2) required (omega (arith, low, pow-suc 2 k))
        (omega (arith, high, ap (λ (v : ℕ). 2 ^ v) shift)) in
    (ground (arith, reached), ground (arith, more))

-- The invariant of the node of a file: it has a buffer for its bytes.
pub record IsFile (node : Node) : Type 0 where
  pub type : node.type ≡ file
  pub bytes : ℕ → ℕ
  pub buffer : node.data_bytes ≡ some bytes
  pub room : node.size ≤ node.capacity

-- The node after the buffer was made large enough: the bytes and the size are the same.
pub record Roomy (s t : Node) (required : ℕ) (bytes : ℕ → ℕ) : Type 0 where
  pub type : t.type ≡ s.type
  pub size : t.size ≡ s.size
  pub room : (required ≤ t.capacity) × (s.capacity ≤ t.capacity)
  pub new_bytes : ℕ → ℕ
  pub buffer : t.data_bytes ≡ some new_bytes
  pub kept : (i : ℕ) → i < s.size → new_bytes i ≡ bytes i

pub reserve_bytes-Roomy :
    (required : ℕ) (fresh : ℕ → ℕ) (node : Node) (f : IsFile node)
    → required ≤ 2 ^ 63
    → (t : Node) × (reserve_bytes required (some fresh) node ≡ some t)
      × Roomy node t required f.bytes
unfolding reserve_bytes
reserve_bytes-Roomy required fresh node f fits = elim (Bool-cases (ltb node.capacity required)) [
  | inl small ↦
      (let start = if ltb 0 node.capacity then node.capacity else 4096 in
        let positive : 0 < start = ground arith in
        let (reached, more) = grow_lem 64 0 start required (omega arith) (omega arith) in
        let grown : ltb node.capacity (grow 64 start required) ≡ true = ground arith in
        rw (small, grown)
          (
            record node {
              data_bytes = some (move node.data_bytes node.size fresh);
              capacity = grow 64 start required;
            },
            refl,
            record {
              type = refl;
              size = refl;
              room = (reached, ground arith);
              new_bytes = move node.data_bytes node.size fresh;
              buffer = refl;
              kept = λ i lt. rw f.buffer (ground arith);
            },
          ))
  | inr enough ↦ rw enough (
    node,
    refl,
    record {
      type = refl;
      size = refl;
      room = (ground arith, omega arith);
      new_bytes = f.bytes;
      buffer = f.buffer;
      kept = λ i lt. refl;
    },
  )
]
