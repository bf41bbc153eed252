-- ===== src/Driver/Ring/Holds.antt =====
-- What a ring holds, oldest record first, and that each operation on the indices respects it.
use win0_doom.Shared.{
  ℕ, suc, ◌+◌, ◌-◌, ◌%◌, ◌<◌, ◌≡◌, refl, ◌∙◌, List, [], ◌∷◌, ◌++◌, some, arith, length, get_elem?,
  set, length-set, get_elem?-set_self, get_elem?-set_ne, length-append, zero, dec_lt, last_n,
  last_n_all, get_elem?_in,
}
use win0_doom.Driver.Ring.{Ring, ring_size, insert_record, discard_records}

module _ {ℓ} {R : Type ℓ} where
  -- The slots from `i` on, going round at the end, hold these records.
  abbrev pub Window : List R → ℕ → List R → Type ℓ
  Window slots i [] = Unit
  Window slots i (x ∷ q) = (get_elem? slots i ≡ some x) × Window slots ((i + 1) % ring_size) q

  pub record IsValid (r : Ring R) : Type 0 where
    pub sized : length r.slots ≡ ring_size
    pub read_in : r.read_index < ring_size
    pub write_in : r.write_index < ring_size

  pub record Holds (r : Ring R) (q : List R) : Type ℓ where
    pub sized : length r.slots ≡ ring_size
    pub read_in : r.read_index < ring_size
    pub write_at : r.write_index ≡ (r.read_index + length q) % ring_size
    pub fits : length q < ring_size
    pub window : Window r.slots r.read_index q

  pub Holds-IsValid : {r : Ring R} {q : List R} → Holds r q → IsValid r
  Holds-IsValid h = record { sized = h.sized; read_in = h.read_in; write_in = omega arith }

  -- A write just past a window extends it.
  Window-set :
      (slots : List R) (i j : ℕ) (q : List R) (x : R)
      → length slots ≡ ring_size
      → i < ring_size
      → length q + 1 < ring_size
      → j ≡ (i + length q) % ring_size
      → Window slots i q
      → Window (set slots j x) i (q ++ x ∷ [])
  Window-set slots i j [] x s hi hq e w =
      let here : j ≡ i = omega arith in rw here (get_elem?-set_self slots i x (omega arith), tt)
  Window-set slots i j (y ∷ q) x s hi hq e w = (
    get_elem?-set_ne slots {i = j} {j = i} x (omega arith) ∙ w.0,
    Window-set slots ((i + 1) % ring_size) j q x s (omega arith) (omega arith) (omega arith) w.1,
  )

  insert_free :
      {r : Ring R} (q : List R) (x : R)
      → Holds r q
      → length q + 1 < ring_size
      → Holds (insert_record r x) (q ++ x ∷ [])
  unfolding insert_record
  insert_free {r} q x h room =
      let stays : (insert_record r x).read_index ≡ r.read_index = ground arith in
      record {
        sized = length-set r.slots r.write_index x ∙ h.sized;
        read_in = rw stays h.read_in;
        write_at = omega (arith, stays, h.write_at, length-append q (x ∷ []));
        fits = omega (arith, length-append q (x ∷ []));
        window = rw stays (
            Window-set r.slots r.read_index r.write_index q x h.sized h.read_in room h.write_at
              h.window);
      }

  insert_full :
      {r : Ring R} (y : R) (q : List R) (x : R)
      → Holds r (y ∷ q)
      → length q + 2 ≡ ring_size
      → Holds (insert_record r x) (q ++ x ∷ [])
  unfolding insert_record
  insert_full {r} y q x h full =
      let moves : (insert_record r x).read_index ≡ (r.read_index + 1) % ring_size = ground arith in
      record {
        sized = length-set r.slots r.write_index x ∙ h.sized;
        read_in = rw moves (omega arith);
        write_at = omega (arith, moves, h.write_at, length-append q (x ∷ []));
        fits = omega (arith, length-append q (x ∷ []));
        window = rw moves (
            Window-set r.slots ((r.read_index + 1) % ring_size) r.write_index q x h.sized
              (omega arith) (omega arith) (omega arith) h.window.1);
      }

  -- Inserting appends the record, and drops the oldest one where 127 are held.
  pub insert_record-Holds :
      {r : Ring R} (q : List R) (x : R)
      → Holds r q
      → Holds (insert_record r x) (last_n 127 (q ++ x ∷ []))
  insert_record-Holds [] x h = insert_free [] x h (omega arith)
  insert_record-Holds (y ∷ q) x h = elim (dec_lt (length q + 2) ring_size) [
    | yes room ↦
        rw (last_n_all 127 (y ∷ q ++ x ∷ []) (omega (arith, length-append q (x ∷ []))))
          (insert_free (y ∷ q) x h (omega arith))
    | no full ↦
        let one_cut : length (y ∷ q ++ x ∷ []) - 127 ≡ 1 =
          omega (arith, length-append q (x ∷ []), h.fits) in
        rw one_cut (insert_full y q x h (omega (arith, h.fits)))
  ]

  -- Every valid ring holds some records.
  records_at :
      (slots : List R) (i n : ℕ)
      → length slots ≡ ring_size
      → i < ring_size
      → (q : List R) × (length q ≡ n) × Window slots i q
  records_at slots i zero s hi = ([], refl, tt)
  records_at slots i (suc n) s hi =
      let (q, e, w) = records_at slots ((i + 1) % ring_size) n s (omega arith) in
      let (x, g) = get_elem?_in slots i (omega arith) in (x ∷ q, omega arith, (g, w))

  pub IsValid-Holds : {r : Ring R} → IsValid r → (q : List R) × Holds r q
  IsValid-Holds {r} v =
      let (q, e, w) =
        records_at r.slots r.read_index ((r.write_index + ring_size - r.read_index) % ring_size)
          v.sized v.read_in in
      (
        q,
        record {
          sized = v.sized;
          read_in = v.read_in;
          write_at = omega (arith, e, v.write_in, v.read_in);
          fits = omega arith;
          window = w;
        },
      )

  pub discard_records-Holds : {r : Ring R} {q : List R} → Holds r q → Holds (discard_records r) []
  unfolding discard_records
  discard_records-Holds h = record {
    sized = h.sized;
    read_in = omega arith;
    write_at = omega arith;
    fits = omega arith;
    window = tt;
  }

  pub discard_records-IsValid : (r : Ring R) → IsValid r → IsValid (discard_records r)
  unfolding discard_records
  discard_records-IsValid r v = ground arith
