-- ===== src/Vfs/Named.antt =====
-- Names and nodes of src/kernel/fs.cpp: what a new name meets in a directory, and what it leaves alone.
use swish_kernel.Prelude.{
  ℕ, ◌+◌, ◌<◌, ◌≡◌, ◌≢◌, refl, ap, ◌∙◌, inl, inr, true, false, arith, List, [], ◌∷◌, ◌++◌, leb,
  ◌==◌, length, null, done, Bool-cases, ne→beq,
}
use swish_kernel.Text.{Bytes, string_eq}
use swish_kernel.Vfs.{Fs, update, set_name, vfs_set_name, ram_lookup}
use swish_kernel.Vfs.Flags
use swish_kernel.Vfs.Resolve.{enter}
use swish_kernel.Vfs.Segments.{AllShort}
use swish_kernel.Vfs.Lookup.{NoneNamed}
use swish_kernel.Vfs.Grown.{Without}

pub ram_lookup-none :
    (items : List ℕ) (name : Bytes) (fs : Fs)
    → NoneNamed items name fs
    → ram_lookup items name fs ≡ null
unfolding ram_lookup
ram_lookup-none [] name fs n = refl
ram_lookup-none (c ∷ items) name fs n = rw n.0 (ram_lookup-none items name fs n.1)

pub NoneNamed-elsewhere :
    (items : List ℕ) (f : ℕ) (name : Bytes) (fs fs' : Fs)
    → ((q : ℕ) → q ≢ f → fs'.node q ≡ fs.node q)
    → Without f items
    → NoneNamed items name fs
    → NoneNamed items name fs'
NoneNamed-elsewhere [] f name fs fs' same w n = record {}
NoneNamed-elsewhere (c ∷ items) f name fs fs' same w n = (
  ap (λ x. string_eq name x.name) (same c w.0) ∙ n.0,
  NoneNamed-elsewhere items f name fs fs' same w.1 n.1,
)

pub AllShort-append :
    (ss : List Bytes) (base : Bytes) → AllShort ss → length base < 128 → AllShort (ss ++ base ∷ [])
AllShort-append [] base a h = (h, record {})
AllShort-append (s ∷ ss) base a h = (a.0, AllShort-append ss base a.1 h)

pub vfs_set_name-named :
    (p : ℕ) (name : Bytes) (fs : Fs)
    → p ≢ null
    → length name < 128
    → vfs_set_name p name fs ≡ done (update p (record (fs.node p) { name = name }) fs)
unfolding vfs_set_name set_name
vfs_set_name-named p name fs p0 h =
    let fits : leb (length name + 1) 128 ≡ true = ground arith in rw (ne→beq p0, fits) refl

pub enter-plain :
    (q : ℕ) (fs : Fs) → ((fs.node q).flags == Flags.mountpoint) ≡ false → enter q fs ≡ q
unfolding enter
enter-plain q fs h = elim (Bool-cases (q == null)) [ inl e ↦ rw e refl | inr e ↦ rw (e, h) refl ]
