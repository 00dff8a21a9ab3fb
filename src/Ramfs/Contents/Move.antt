-- ===== src/Ramfs/Contents/Move.antt =====
-- `ramfs_cp` and `ramfs_mv` of src/ramfs.c, by the contents of the names.
use computer_os.Prelude.{
  ℕ, ◌≡◌, refl, ap, ◌∙◌, Bool, true, false, Option, none, some, List, if◌then◌else◌, inl, inr,
  Option-cases,
}
use computer_os.Vfs.Path.{Text}
use computer_os.Ramfs.{
  File, same, bare, ramfs_write_file, ramfs_delete_file, write_copy, ramfs_cp, delete_after,
  ramfs_mv,
}
use computer_os.Ramfs.Contents.{contents, sound, same_refl, over}
use computer_os.Ramfs.Contents.Read.{copied-contents}
use computer_os.Ramfs.Contents.Write.{Written, ramfs_write_file-Written}
use computer_os.Ramfs.Contents.Delete.{Deleted, ramfs_delete_file-Deleted}

-- A copy is a write of the contents of the source.
pub ramfs_cp-write :
    (room : List File → ℕ → Bool) (freed : Text → Text) (src dst : Text) (fs : List File)
    → sound fs ≡ true
    → ramfs_cp room freed src dst fs ≡ write_copy room freed src dst (contents fs (bare src)) fs
unfolding ramfs_cp
ramfs_cp-write room freed src dst fs s =
    ap (λ (o : Option Text). write_copy room freed src dst o fs) (copied-contents (bare src) fs s)

-- A move that succeeds gives the contents of the source to the destination, and none to the
-- source; one that fails leaves those of the other names than the destination.
abbrev pub Moved : Text → Text → List File → Option ℕ × List File → Type 0
Moved src dst fs (some n, fs') =
    (n ≡ 0)
    × (sound fs' ≡ true)
    × ((q : Text)
        → contents fs' q
          ≡ (if same (bare src) q then none else over (bare dst) (contents fs (bare src)) fs q))
Moved src dst fs (none, fs') =
    (sound fs' ≡ true) × ((q : Text) → same (bare dst) q ≡ false → contents fs' q ≡ contents fs q)

-- The file is gone when both names are one.
abbrev pub Lost : Text → List File → Option ℕ × List File → Type 0
Lost src fs (some n, fs') = (sound fs' ≡ true) × (contents fs' (bare src) ≡ none)
Lost src fs (none, fs') = sound fs' ≡ true

delete_after-Moved :
    (src dst b : Text) (fs : List File) (r : Option ℕ × List File)
    → contents fs (bare src) ≡ some b
    → Written (bare dst) b fs r
    → Moved src dst fs (delete_after src r)
delete_after-Moved src dst b fs (none, fs') c w = w
delete_after-Moved src dst b fs (some n, fs') c (l, s, w) =
    after (ramfs_delete_file src fs') (ramfs_delete_file-Deleted src fs' s)
  where
    after : (r : Option ℕ × List File) → Deleted src fs' r → Moved src dst fs r
    after (none, fs'') (e, d) = (rw e s, λ q n. rw (e, w q, n) refl)
    after (some k, fs'') (z, s'', d) = (z, s'', λ q. d q ∙ rw (w q, c) refl)

-- On a sound table, for a source and a destination with different names, `ramfs_mv` leaves a sound
-- table. When it succeeds the destination has the contents of the source, the source has none, and
-- the others have theirs; when it fails every name but the destination keeps its contents.
pub ramfs_mv-Moved :
    (room : List File → ℕ → Bool) (freed : Text → Text) (src dst : Text) (fs : List File)
    → sound fs ≡ true
    → same (bare src) (bare dst) ≡ false
    → Moved src dst fs (ramfs_mv room freed src dst fs)
unfolding ramfs_mv
ramfs_mv-Moved room freed src dst fs s n = elim (Option-cases (contents fs (bare src))) [
  | inl c ↦ rw (ramfs_cp-write room freed src dst fs s, c) (s, λ q d. refl)
  | inr (b, c) ↦
      rw (ramfs_cp-write room freed src dst fs s, c, n)
        (delete_after-Moved src dst b fs (ramfs_write_file room dst b fs) c
          (ramfs_write_file-Written room dst b fs s))
]

delete_after-Lost :
    (src dst b : Text) (fs : List File) (r : Option ℕ × List File)
    → Written (bare dst) b fs r
    → Lost src fs (delete_after src r)
delete_after-Lost src dst b fs (none, fs') (s, w) = s
delete_after-Lost src dst b fs (some n, fs') (l, s, w) =
    after (ramfs_delete_file src fs') (ramfs_delete_file-Deleted src fs' s)
  where
    after : (r : Option ℕ × List File) → Deleted src fs' r → Lost src fs r
    after (none, fs'') (e, d) = rw e s
    after (some k, fs'') (z, s'', d) = (s'', d (bare src) ∙ rw (same_refl (bare src)) refl)

pub ramfs_mv-Lost :
    (room : List File → ℕ → Bool) (freed : Text → Text) (src dst : Text) (fs : List File)
    → sound fs ≡ true
    → same (bare src) (bare dst) ≡ true
    → Lost src fs (ramfs_mv room freed src dst fs)
unfolding ramfs_mv
ramfs_mv-Lost room freed src dst fs s n = elim (Option-cases (contents fs (bare src))) [
  | inl c ↦ rw (ramfs_cp-write room freed src dst fs s, c) s
  | inr (b, c) ↦
      rw (ramfs_cp-write room freed src dst fs s, c, n)
        (delete_after-Lost src dst (freed b) fs (ramfs_write_file room dst (freed b) fs)
          (ramfs_write_file-Written room dst (freed b) fs s))
]
