-- ===== src/Utils/Vector/Capacity.antt =====
-- The block of a vector, through every operation of vector.c.
use ru_c.Prelude.{
  ℕ, zero, suc, ◌+◌, ◌-◌, ◌%◌, ◌^◌, ◌≤◌, ◌<◌, Bool, true, false, if◌then◌else◌, List, [], ◌∷◌,
  length-take, length-set, arith,
}
use ru_c.Prelude.Int.{ℤ, pos, negsuc}
use ru_c.Utils.Item.{Item, Size, word, size_max}
use ru_c.Utils.Vector.{
  Vector, cells, size, vector_is_correct, add_last, change_size, vector_create, vector_add,
  vector_set, vector_remove, vector_increase, vector_resize, vector_clear,
}
use ru_c.Utils.Vector.Block.{IsWithin}
use ru_c.Utils.Vector.Access.{length-resize_cells}

-- The calls that change a vector.
pub data Call : Type 0 where
  add : Item → Call
  set_at : Size → Item → Call
  remove : Call
  increase : Size → Call
  resize : Size → Call
  clear : Call

module _ (grant : ℕ → Bool) where
  unfoldable pub run_call : Call → Vector → Vector
  run_call (add value) vec = (vector_add grant vec value).0
  run_call (set_at index value) vec = (vector_set vec index value).0
  run_call remove vec = (vector_remove vec).0
  run_call (increase n) vec = (vector_increase grant vec n).0
  run_call (resize n) vec = (vector_resize grant vec n).0
  run_call clear vec = (vector_clear vec).0

  unfoldable pub run_calls : List Call → Vector → Vector
  unfolding run_call
  run_calls [] vec = vec
  run_calls (c ∷ cs) vec = run_calls cs (run_call c vec)

-- The cells for which a call asks at most.
abbrev pub asked : Call → ℕ
asked (add value) = 1
asked (increase n) = n
asked (resize n) = n
asked _ = 0

abbrev pub all_asked : List Call → ℕ
all_asked [] = 0
all_asked (c ∷ cs) = asked c + all_asked cs

add_last-IsWithin :
    (n : ℕ) (value : Item) (r : Vector × ℤ) → IsWithin n r.0 → IsWithin n (add_last value r).0
add_last-IsWithin n value (vec, pos zero) w =
    let same = length-set (cells vec) ((size vec + word - 1) % word) value in
    record {
      few = omega (arith, same, w.few);
      fits = omega (arith, same, w.fits);
      nonempty = w.nonempty;
      small = w.small;
    }
add_last-IsWithin n value (vec, pos (suc k)) w = w
add_last-IsWithin n value (vec, negsuc k) w = w

pub more : {n : ℕ} (k : ℕ) (vec : Vector) → IsWithin n vec → n ≤ k → IsWithin k vec
more k vec w le = record {
  few = omega (arith, w.few);
  fits = w.fits;
  nonempty = w.nonempty;
  small = w.small;
}

either :
    {A : Type 0} {n : ℕ} (c : Bool) (x y : Vector × A)
    → IsWithin n x.0
    → IsWithin n y.0
    → IsWithin n (if c then x else y).0
either true x y on_x on_y = on_x
either false x y on_x on_y = on_y

module _ (grant : ℕ → Bool) where
  pub change_size-IsWithin :
      (vec : Vector) (n m k : ℕ)
      → IsWithin m vec
      → n ≤ k
      → m ≤ k
      → k < 2 ^ 60
      → IsWithin k (change_size grant vec n).0
  unfolding change_size
  change_size-IsWithin vec n m k w le le' bound =
      let few = w.few in
      let fits = w.fits in
      let nonempty = w.nonempty in
      let small = w.small in
      let same = length-resize_cells n (cells vec) in
      record {
        few = ground (arith, same);
        fits = ground (arith, same);
        nonempty = ground arith;
        small = ground arith;
      }

  pub run_call-IsWithin :
      (c : Call) (vec : Vector) (n : ℕ)
      → IsWithin n vec
      → n + asked c < 2 ^ 60
      → IsWithin (n + asked c) (run_call grant c vec)
  unfolding run_call
  run_call-IsWithin (add value) vec n w bound =
      let few = w.few in
      let next = (size vec + 1) % word in
      let changed = change_size-IsWithin vec next n (n + 1) w (omega arith) (omega arith) bound in
      unfold vector_add in
      either (vector_is_correct vec) (add_last value (change_size grant vec next)) (vec, size_max)
        (add_last-IsWithin (n + 1) value (change_size grant vec next) changed)
        (more (n + 1) vec w (omega arith))
  run_call-IsWithin (set_at index value) vec n w bound =
      let same = length-set (cells vec) index value in
      let few = w.few in
      let fits = w.fits in
      unfold vector_set in
      record {
        few = ground (arith, same);
        fits = ground (arith, same);
        nonempty = ground (arith, w.nonempty);
        small = ground (arith, w.small);
      }
  run_call-IsWithin remove vec n w bound =
      let same = length-take (size vec - 1) (cells vec) in
      let few = w.few in
      let fits = w.fits in
      unfold vector_remove in
      record {
        few = ground (arith, same);
        fits = ground (arith, same);
        nonempty = ground (arith, w.nonempty);
        small = ground (arith, w.small);
      }
  run_call-IsWithin (increase k) vec n w bound =
      let few = w.few in
      let next = (size vec + k) % word in
      unfold vector_increase in
      either (vector_is_correct vec) (change_size grant vec next) (vec, negsuc 0)
        (change_size-IsWithin vec next n (n + k) w (omega arith) (omega arith) bound)
        (more (n + k) vec w (omega arith))
  run_call-IsWithin (resize k) vec n w bound =
      unfold vector_resize in
      either (vector_is_correct vec) (change_size grant vec k) (vec, negsuc 0)
        (change_size-IsWithin vec k n (n + k) w (omega arith) (omega arith) bound)
        (more (n + k) vec w (omega arith))
  run_call-IsWithin clear vec n w bound =
      let few = w.few in
      let fits = w.fits in
      unfold vector_clear in
      record {
        few = ground arith;
        fits = ground arith;
        nonempty = ground (arith, w.nonempty);
        small = ground (arith, w.small);
      }

  pub create-IsWithin : (alloc : Size) → alloc < 2 ^ 61 → IsWithin 0 (vector_create grant alloc)
  unfolding vector_create
  create-IsWithin alloc bound = record {
    few = ground arith;
    fits = ground arith;
    nonempty = ground arith;
    small = ground arith;
  }
