-- ===== src/Vfs/Files.antt =====
-- Reading and writing the files of src/kernel/ramfs.cpp through src/kernel/fs.cpp.
use mathlib.Core.List.{append-nil}
use mathlib.Core.Path.{subst}
use swish_kernel.Prelude.{
  ℕ, zero, suc, ◌+◌, ◌-◌, ◌<◌, ◌≤◌, ◌^◌, ◌%◌, ◌≡◌, ◌≢◌, refl, sym, ap, ◌∙◌, arith, true, false,
  List, [], ◌∷◌, ◌++◌, inl, inr, ltb, leb, Bool-cases, length, take, drop, replicate, length-append,
  length-take, length-replicate, write_self, write_ne, ne→beq, null, Res, done, in_bounds,
}
use swish_kernel.Text.{Bytes}
use swish_kernel.Vector.{Vector, size}
use swish_kernel.Vector.Growth.{resize_lem}
use swish_kernel.Vfs.{
  Fs, FsNode, ram_file, splice, ram_read, ram_write, vfs_read, vfs_write, update,
}

module _ {A : Type 0} where
  drop-take_append : (n : ℕ) (xs ys : List A) → n ≤ length xs → drop n (take n xs ++ ys) ≡ ys
  drop-take_append zero xs ys h = refl
  drop-take_append (suc n) [] ys h = absurd (omega arith)
  drop-take_append (suc n) (x ∷ xs) ys h = drop-take_append n xs ys (omega arith)

  take-append : (xs ys : List A) → take (length xs) (xs ++ ys) ≡ xs
  take-append [] ys = refl
  take-append (x ∷ xs) ys = ap (λ zs. x ∷ zs) (take-append xs ys)

  length-drop : (n : ℕ) (xs : List A) → length (drop n xs) ≡ length xs - n
  length-drop zero xs = omega arith
  length-drop (suc n) [] = omega arith
  length-drop (suc n) (x ∷ xs) = omega (arith, length-drop n xs)

length-splice :
    (xs : Bytes) (offset : ℕ) (new : Bytes)
    → offset + length new ≤ length xs
    → length (splice xs offset new) ≡ length xs
length-splice xs offset new h = omega (
  arith,
  length-append (take offset xs) (new ++ drop (offset + length new) xs),
  length-append new (drop (offset + length new) xs),
  length-drop (offset + length new) xs,
  length-take offset xs,
)

-- The length of a file is the number of its bytes, for which the capacity is enough.
abbrev pub IsFile : ℕ → Vector ℕ → Type 0
IsFile len v = (size v ≡ len) × (size v ≤ v.m_capacity)

-- The bytes of a file once `new` is written at `offset`: zeros fill the gap behind the old end.
abbrev pub overwritten : Bytes → ℕ → Bytes → Bytes
overwritten old offset new =
    splice (old ++ replicate (offset + length new - length old) 0) offset new

empty_read :
    (new : Bytes)
    → length new ≡ 0
    → ◌≡◌ {A = Res (ℕ × Bytes)} (done (0, [])) (done (length new, new))
empty_read [] e = refl
empty_read (x ∷ new) e = absurd (omega (arith, e))

-- What was written is read.
read_back :
    (len offset : ℕ) (old new : Bytes) (capacity : ℕ)
    → offset + length new ≤ length old
    → length old ≡ len
    → len < 2 ^ 32
    → ram_read len
        (record { items = splice old offset new; m_capacity = capacity })
        offset
        (length new)
      ≡ done (length new, new)
unfolding ram_read
read_back len offset old new capacity h e small = elim (Bool-cases (leb len offset)) [
  | inl past ↦ let nothing : length new ≡ 0 = ground arith in rw past (empty_read new nothing)
  | inr before ↦
      let whole : ltb len ((offset + length new) % 2 ^ 32) ≡ false = ground arith in
      let inside : leb (offset + length new) (length (splice old offset new)) ≡ true =
        ground (arith, length-splice old offset new h) in
      let bytes : take (length new) (drop offset (splice old offset new)) ≡ new =
        ap (take (length new))
          (drop-take_append offset old (new ++ drop (offset + length new) old) (omega arith))
        ∙ take-append new (drop (offset + length new) old) in
      rw (before, whole, inside, bytes) refl
]

-- What a write leaves of a file: its length and bytes, of which the same range reads back.
abbrev pub Written : Bytes → ℕ → Bytes → Res (ℕ × Vector ℕ) → Type 0
Written old offset new r =
    (len : ℕ) × (v : Vector ℕ) × (r ≡ done (len, v))
    × IsFile len v
    × (v.items ≡ overwritten old offset new)
    × (ram_read len v offset (length new) ≡ done (length new, new))

-- The end of a write on the bytes `w`, which the old ones are after the extension.
splice-Written :
    (len offset : ℕ) (old new : Bytes) (w : Vector ℕ)
    → w.items ≡ old ++ replicate (offset + length new - length old) 0
    → IsFile len w
    → offset + length new ≤ len
    → len < 2 ^ 32
    → Written old offset new (
        in_bounds
          (leb (offset + length new) (size w))
          (len, record w { items = splice w.items offset new }))
splice-Written len offset old new w items (exact, roomy) h small =
    let fits : leb (offset + length new) (size w) ≡ true = ground arith in
    let same : length (splice w.items offset new) ≡ size w =
      length-splice w.items offset new (omega (arith, exact)) in
    rw fits (
      len,
      record w { items = splice w.items offset new },
      refl,
      (same ∙ exact, omega (arith, same, roomy)),
      ap (λ xs. splice xs offset new) items,
      read_back len offset w.items new w.m_capacity (omega (arith, exact)) exact small,
    )

ram_write-Written :
    (len offset : ℕ) (v : Vector ℕ) (new : Bytes)
    → IsFile len v
    → len < 2 ^ 32
    → offset + length new < 2 ^ 32
    → Written v.items offset new (ram_write len v offset new)
unfolding ram_write
ram_write-Written len offset v new (exact, roomy) small h =
    let sum : (offset + length new) % 2 ^ 32 ≡ offset + length new = omega arith in
    elim (Bool-cases (ltb len (offset + length new))) [
      | inl longer ↦
          let (w, run, items, room) = resize_lem 0 (offset + length new) v roomy in
          rw (sum, longer, run)
            (splice-Written (offset + length new) offset v.items new w items
              (
                ground (
                  arith,
                  items,
                  length-append v.items (replicate (offset + length new - size v) 0),
                  length-replicate {A = ℕ} (offset + length new - size v) 0,
                  ap length items,
                  exact,
                ),
                room,
              )
              (omega arith) h)
      | inr within ↦
          let none_left : offset + length new - size v ≡ 0 = ground arith in
          rw (sum, within)
            (splice-Written len offset v.items new v
              (sym (append-nil v.items) ∙ (λ i. v.items ++ replicate (sym none_left i) 0))
              (exact, roomy) (ground arith) small)
    ]

vfs_read-ram :
    (p offset count : ℕ) (fs : Fs) (v : Vector ℕ)
    → p ≢ null
    → (fs.node p).body ≡ ram_file v
    → vfs_read p offset count fs ≡ ram_read (fs.node p).length v offset count
unfolding vfs_read
vfs_read-ram p offset count fs v p0 body = rw (ne→beq p0, body) refl

abbrev stored : ℕ → ℕ → Vector ℕ → Fs → Fs
stored p len v fs = update p (record (fs.node p) { length = len; body = ram_file v }) fs

vfs_write-ram :
    (p offset : ℕ) (new : Bytes) (fs : Fs) (v w : Vector ℕ) (len : ℕ)
    → p ≢ null
    → (fs.node p).body ≡ ram_file v
    → ram_write (fs.node p).length v offset new ≡ done (len, w)
    → vfs_write p offset new fs ≡ done (length new, stored p len w fs)
unfolding vfs_write
vfs_write-ram p offset new fs v w len p0 body run = rw (ne→beq p0, body, run) refl

-- What `vfs_write` leaves: all bytes are written, the file holds the old ones overwritten, the same range
-- reads back, and no other node changes.
abbrev pub Stored : ℕ → Bytes → ℕ → Bytes → Fs → Res (ℕ × Fs) → Type 0
Stored p old offset new fs r =
    (fs' : Fs) × (v : Vector ℕ) × (r ≡ done (length new, fs'))
    × ((fs'.node p).body ≡ ram_file v)
    × IsFile (fs'.node p).length v
    × (v.items ≡ overwritten old offset new)
    × (vfs_read p offset (length new) fs' ≡ done (length new, new))
    × ((q : ℕ) → q ≢ p → fs'.node q ≡ fs.node q)

-- Writing to a file below the end of a `uint32_t` returns. The file then holds the old bytes, with zeros
-- up to the place, overwritten by the new ones, a read of the same range gives the new bytes back,
-- and no other node changes.
pub vfs_write-Stored :
    (p offset : ℕ) (new : Bytes) (fs : Fs) (v : Vector ℕ)
    → p ≢ null
    → (fs.node p).body ≡ ram_file v
    → IsFile (fs.node p).length v
    → (fs.node p).length < 2 ^ 32
    → offset + length new < 2 ^ 32
    → Stored p v.items offset new fs (vfs_write p offset new fs)
vfs_write-Stored p offset new fs v p0 body file small h =
    let (len, w, run, file', items, back) =
      ram_write-Written (fs.node p).length offset v new file small h in
    let node = write_self fs.node p (record (fs.node p) { length = len; body = ram_file w }) in
    let fs' = stored p len w fs in
    (
      fs',
      w,
      vfs_write-ram p offset new fs v w len p0 body run,
      ap (λ (n : FsNode). n.body) node,
      subst (λ (n : FsNode). IsFile n.length w) (sym node) file',
      items,
      vfs_read-ram p offset (length new) fs' w p0 (ap (λ (n : FsNode). n.body) node)
          ∙ ap (λ (n : FsNode). ram_read n.length w offset (length new)) node
          ∙ back,
      λ q ne.
          write_ne fs.node p q (record (fs.node p) { length = len; body = ram_file w })
            (λ e. ne (sym e)),
    )
