-- ===== src/Pmm/Owners.antt =====
-- Clients of the page allocator of src/pmm.c: any sequence of allocations, and of frees by an owner.
use computer_os.Prelude.{
  ℕ, ◌+◌, ◌*◌, ◌/◌, ◌<◌, ◌≡◌, ◌≢◌, refl, true, false, List, [], ◌∷◌, arith, has, erase, NoDup,
  has-erase, has-erase_self, length-erase, erase-NoDup, ◌==◌, Bool-cases, inl, inr, length, ◌∙◌,
  subst,
}
use computer_os.Pmm.{Pmm, page_size, alloc, free}
use computer_os.Pmm.Inv.{used, IsValid}
use computer_os.Pmm.Alloc.{
  Allocated, Granted, Granted-of_ne_zero, unchanged_of_zero, alloc-Allocated,
}
use computer_os.Pmm.Free.{Freed, frees, free-Freed}

-- The allocator, and the addresses that it has handed out and not got back.
pub record System : Type 0 where
  pub pmm : Pmm
  pub owned : List ℕ

pub data Step (s : System) : System → Type 0 where
  take :
      (a : ℕ) (q : Pmm)
      → alloc s.pmm ≡ (a, q)
      → a ≢ 0
      → Step s (record { pmm = q; owned = a ∷ s.owned })
  -- The call returned 0.
  refuse : (q : Pmm) → alloc s.pmm ≡ (0, q) → Step s (record s { pmm = q })
  give :
      (a : ℕ)
      → has a s.owned ≡ true
      → Step s (record { pmm = free a s.pmm; owned = erase a s.owned })

pub data Reach (p : Pmm) : System → Type 0 where
  boot : Reach p (record { pmm = p; owned = [] })
  later : {s t : System} → Reach p s → Step s t → Reach p t

-- What a client knows of an address that it owns.
pub record OwnedPage (start now : Pmm) (a : ℕ) : Type 0 where
  pub aligned : a ≡ (a / page_size) * page_size
  pub nonzero : 0 < a / page_size
  pub inside : a / page_size < start.total_pages
  pub in_use : used now (a / page_size) ≡ true
  pub was_free : used start (a / page_size) ≡ false

pub record Inv (start : Pmm) (s : System) : Type 0 where
  pub valid : IsValid s.pmm
  pub pages : (a : ℕ) → has a s.owned ≡ true → OwnedPage start s.pmm a
  pub distinct : NoDup s.owned
  pub total : s.pmm.total_pages ≡ start.total_pages
  pub conserved : s.pmm.free_pages + length s.owned ≡ start.free_pages
  pub reserved : (i : ℕ) → used start i ≡ true → used s.pmm i ≡ true

boot-Inv : {p : Pmm} → IsValid p → Inv p (record { pmm = p; owned = [] })
boot-Inv v = record {
  valid = v;
  pages = λ a h. cc;
  distinct = tt;
  total = refl;
  conserved = omega arith;
  reserved = λ i h. h;
}

grant-Inv :
    {p q : Pmm} {s : System} {a : ℕ}
    → Inv p s
    → Granted s.pmm a q
    → Inv p (record { pmm = q; owned = a ∷ s.owned })
grant-Inv {p} {q} {s} {a} inv g = record {
  valid = g.valid;
  pages = λ b h. elim (Bool-cases (b == a)) [
    | inl new ↦ page_new b (ground arith)
    | inr old ↦ page_old b (ground arith)
  ];
  distinct = (not_owned, inv.distinct);
  total = omega (arith, inv.total, g.total);
  conserved = omega (arith, inv.conserved, g.counter);
  reserved = λ i h. ground (arith, g.marks i, inv.reserved i h);
}
  where
    number : a / page_size ≡ g.page
    number = omega (arith, g.address)

    not_owned : has a s.owned ≡ false
    not_owned = elim (Bool-cases (has a s.owned)) [
      | inl owned ↦ ground (arith, number, (inv.pages a owned).in_use, g.was_free)
      | inr free ↦ free
    ]

    free_at_start : used p g.page ≡ false
    free_at_start = ground (arith, inv.reserved g.page, g.was_free)

    page_new : (b : ℕ) → b ≡ a → OwnedPage p q b
    page_new b e = rw e (record {
      aligned = omega (arith, number, g.address);
      nonzero = omega (arith, number, g.nonzero);
      inside = omega (arith, number, g.inside, inv.total);
      in_use = ground (arith, number, g.marks g.page);
      was_free = ground (arith, number, free_at_start);
    })

    page_old : (b : ℕ) → has b s.owned ≡ true → OwnedPage p q b
    page_old b h =
        let o = inv.pages b h in
        record {
          aligned = o.aligned;
          nonzero = o.nonzero;
          inside = o.inside;
          in_use = ground (arith, g.marks (b / page_size), o.in_use);
          was_free = o.was_free;
        }

give-Inv :
    {p : Pmm} {s : System} (a : ℕ)
    → Inv p s
    → has a s.owned ≡ true
    → Inv p (record { pmm = free a s.pmm; owned = erase a s.owned })
give-Inv {p} {s} a inv h = record {
  valid = freed.valid;
  pages = λ b k. page_left b (has-erase a b s.owned k) (apart b k);
  distinct = erase-NoDup a s.owned inv.distinct;
  total = freed.total ∙ inv.total;
  conserved = ground (arith, freed.counter, hit, length-erase a s.owned h, inv.conserved);
  reserved = λ i k. ground (arith, freed.marks i, inv.reserved i k, mine.was_free, hit);
}
  where
    mine : OwnedPage p s.pmm a
    mine = inv.pages a h

    freed : Freed s.pmm a (free a s.pmm)
    freed = free-Freed a inv.valid (omega (arith, mine.nonzero))

    hit : frees s.pmm a ≡ true
    hit = ground (arith, mine.inside, inv.total, mine.in_use)

    apart : (b : ℕ) → has b (erase a s.owned) ≡ true → b ≢ a
    apart b k e = ground (arith, has-erase_self a s.owned inv.distinct)

    page_left : (b : ℕ) → has b s.owned ≡ true → b ≢ a → OwnedPage p (free a s.pmm) b
    page_left b k ne =
        let o = inv.pages b k in
        record {
          aligned = o.aligned;
          nonzero = o.nonzero;
          inside = o.inside;
          in_use = ground (arith, freed.marks (b / page_size), o.in_use, o.aligned, mine.aligned);
          was_free = o.was_free;
        }

Step-Inv : {p : Pmm} {s t : System} → Inv p s → Step s t → Inv p t
Step-Inv {s} inv (take a q e ne) =
    grant-Inv inv (Granted-of_ne_zero (subst (Allocated s.pmm) e (alloc-Allocated inv.valid)) ne)
Step-Inv {s} inv (refuse q e) =
    let same : q ≡ s.pmm =
      unchanged_of_zero (subst (Allocated s.pmm) e (alloc-Allocated inv.valid)) refl in
    rw same inv
Step-Inv {s} inv (give a h) = give-Inv a inv h

-- In every run of allocations and of frees of owned pages from a valid state, whatever their order:
-- each owned address is that of a managed page that was free at the start, and is marked as used;
-- no address is owned twice; free and owned pages together stay as many as were free at the start;
-- what was reserved at the start stays so.
pub Reach-Inv : {p : Pmm} {s : System} → IsValid p → Reach p s → Inv p s
Reach-Inv v boot = boot-Inv v
Reach-Inv v (later r st) = Step-Inv (Reach-Inv v r) st
