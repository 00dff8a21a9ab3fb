-- ===== src/Vfs/Ops/Across.antt =====
-- `vfs_mv` of src/vfs.c between two file systems, of which it is known what their operations do to
-- the contents of files.
use computer_os.Prelude.{ℕ, ◌≡◌, ◌≢◌, Option, none, some, take, bind}
use computer_os.Vfs.Path.{Text}
use computer_os.Vfs.Mount.{Ops, Vfs}
use computer_os.Vfs.Ops.{xbuf_size}

-- What the files of a file system hold, by path; a path without a file holds nothing.
abbrev pub Contents : Type 0 → Type 0
Contents S = S → Text → Option Text

module _ {S : Type 0} where
  abbrev pub Same : Contents S → S → S → Type 0
  Same c f g = (q : Text) → c g q ≡ c f q

  -- The first `m` bytes of a file, which stays.
  abbrev pub Got : Contents S → Text → ℕ → S → Option Text × S → Type 0
  Got here p m f (r, g) = (r ≡ bind (here f p) (λ c. some (take m c))) × Same here f g

  -- A deletion that succeeds takes the file away, and changes nothing in the other file system.
  abbrev pub Removed : Contents S → Contents S → Text → S → Option ℕ × S → Type 0
  Removed here there p f (some n, g) =
      (here g p ≡ none) × ((q : Text) → q ≢ p → here g q ≡ here f q) × Same there f g
  Removed here there p f (none, g) = Same here f g

  -- A write that succeeds stores the bytes; it changes nothing in the other file system.
  abbrev pub Stored : Contents S → Contents S → Text → Text → S → Option ℕ × S → Type 0
  Stored here there d bytes f (some n, g) = (there g d ≡ some bytes) × Same here f g
  Stored here there d bytes f (none, g) = Same here f g

  -- The operations that are there do what they promise.
  pub record Laws (here there : Contents S) (a b : Ops S) : Type 0 where
    pub reads :
        (read : Text → ℕ → S → Option Text × S)
        → a.read_file ≡ some read
        → (p : Text) (m : ℕ) (f : S) → Got here p m f (read p m f)
    pub writes :
        (write : Text → Text → S → Option ℕ × S)
        → b.write_file ≡ some write
        → (d bytes : Text) (f : S) → Stored here there d bytes f (write d bytes f)
    pub deletes :
        (delete : Text → S → Option ℕ × S)
        → a.delete_file ≡ some delete
        → (p : Text) (f : S) → Removed here there p f (delete p f)

  module _ (here there : Contents S) (s d : Text) where
    -- After a copy the target holds the bytes; the source is as before.
    abbrev Copied : S → Option ℕ × S → Type 0
    Copied f (some n, g) =
        (c : Text) × (here f s ≡ some c) × (there g d ≡ some (take xbuf_size c)) × Same here f g
    Copied f (none, g) = Same here f g

    -- After a move the file of the source is gone, and the target holds its first 65,536 bytes;
    -- after a failure every file of the source holds what it held.
    abbrev pub Crossed : Vfs S → Option ℕ × Vfs S → Type 0
    Crossed v (some n, v') =
        (c : Text) × (here v.files s ≡ some c)
        × (there v'.files d ≡ some (take xbuf_size c))
        × (here v'.files s ≡ none)
        × ((q : Text) → q ≢ s → here v'.files q ≡ here v.files q)
    Crossed v (none, v') = Same here v.files v'.files

    abbrev CopiedVfs : Vfs S → Option ℕ × Vfs S → Type 0
    CopiedVfs v (r, v') = Copied v.files (r, v'.files)
