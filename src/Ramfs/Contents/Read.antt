-- ===== src/Ramfs/Contents/Read.antt =====
-- What src/ramfs.c finds of a name is its contents.
use computer_os.Prelude.{
  ℕ, suc, ◌≡◌, refl, sym, ap, ◌∙◌, true, false, Option, none, some, List, [], ◌∷◌, ltb, ◌==◌,
  if◌then◌else◌, length, take, bind, arith, Bool-cases, inl, inr, bind-map, take_all,
}
use computer_os.Vfs.Path.{Text}
use computer_os.Ramfs.{
  File, has_name, first_slot, find, get_file, read_of, ramfs_read_file, bare, is_root,
}
use computer_os.Ramfs.Contents.{contents, sound, file_sound, has_bytes}

-- A computation on the file that is found, by its contents.
lookup-contents :
    (name : Text) (k : File → Option Text) (h : Option Text → Option Text) (fs : List File)
    → ((f : File) → file_sound f ≡ true → f.used ≡ true → k f ≡ h f.bytes)
    → h none ≡ none
    → sound fs ≡ true
    → bind (find name fs) (λ i. bind (get_file fs i) k) ≡ h (contents fs name)
unfolding first_slot get_file contents sound
lookup-contents name k h [] e z s = sym z
lookup-contents name k h (f ∷ fs) e z s = elim (Bool-cases (has_name name f)) [
  | inl t ↦ rw t (e f (ground arith) (ground arith))
  | inr t ↦ rw t (
      bind-map (first_slot (has_name name) fs) suc (λ i. bind (get_file (f ∷ fs) i) k)
        (λ i. bind (get_file fs i) k) (λ i. refl)
      ∙ lookup-contents name k h fs e z (ground arith))
]

take-size :
    (n m : ℕ) (b : Text) → (n == length b) ≡ true → take (if ltb n m then n else m) b ≡ take m b
take-size n m b h = elim (Bool-cases (ltb n m)) [
  | inl e ↦ rw e (take_all b n (ground arith) ∙ sym (take_all b m (ground arith)))
  | inr e ↦ rw e refl
]

-- `f->size` bytes are all of them.
whole :
    (f : File)
    → file_sound f ≡ true
    → f.used ≡ true
    → bind f.bytes (λ b. some (take f.size b)) ≡ f.bytes
whole f s u = all f.bytes (ground arith)
  where
    all : (o : Option Text) → has_bytes f.size o ≡ true → bind o (λ b. some (take f.size b)) ≡ o
    all none h = refl
    all (some b) h = ap some (take_all b f.size (ground arith))

read_of-take :
    (m : ℕ) (f : File)
    → file_sound f ≡ true
    → f.used ≡ true
    → read_of m f ≡ bind f.bytes (λ b. some (take m b))
read_of-take m f s u = all f.bytes (ground arith)
  where
    all :
        (o : Option Text)
        → has_bytes f.size o ≡ true
        → bind o (λ b. some (take (if ltb f.size m then f.size else m) b))
          ≡ bind o (λ b. some (take m b))
    all none h = refl
    all (some b) h = ap some (take-size f.size m b h)

-- What `ramfs_cp` copies.
pub copied-contents :
    (name : Text) (fs : List File)
    → sound fs ≡ true
    → bind
        (find name fs)
        (λ i. bind (get_file fs i) (λ f. bind f.bytes (λ b. some (take f.size b))))
      ≡ contents fs name
copied-contents name fs s =
    lookup-contents name (λ f. bind f.bytes (λ b. some (take f.size b))) (λ o. o) fs whole refl s

pub ramfs_read_file-contents :
    (path : Text) (m : ℕ) (fs : List File)
    → sound fs ≡ true
    → is_root path ≡ false
    → ramfs_read_file path m fs ≡ (bind (contents fs (bare path)) (λ b. some (take m b)), fs)
unfolding ramfs_read_file
ramfs_read_file-contents path m fs s r =
    rw
      (
        r,
        lookup-contents (bare path) (read_of m) (λ o. bind o (λ b. some (take m b))) fs
            (read_of-take m) refl s,
      )
      refl
