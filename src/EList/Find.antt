-- ===== src/EList/Find.antt =====
-- `eris_list_find` and `eris_list_remove`.
use erishttp.Common.{
  ℕ, zero, suc, ◌-◌, ◌≤◌, ◌≡◌, ◌≢◌, refl, sym, ◌∙◌, Bool, Bool-cases, inl, inr, true, false, some,
  none, List, [], ◌∷◌, ltb, if◌then◌else◌, ==_ne, arith, length,
}
use erishttp.EList.Memory.{
  Ptr, null, Node, node, Heap, load, store, set_item, bind_run, update, ◌>>=◌,
}
use erishttp.EList.{EList, find, search_next, search_prev, remove, item_of}
use erishttp.EList.Seg.{Cell, Seg, update_self, update_other, load_lem, load-none, free_lem}
use erishttp.EList.Rep.{IsList}

-- the pointer of the first node that the comparison takes, or NULL
abbrev pub found : (Ptr → Bool) → List Cell → Ptr
found comparison [] = null
found comparison (c ∷ cs) =
    let rest = found comparison cs in if comparison c.item then c.item else rest

search_run :
    (comparison : Ptr → Bool) (rounds : ℕ) (h : Heap) (before : Ptr) (c : Cell) (cs : List Cell)
    → Seg h before (c ∷ cs) null
    → length (c ∷ cs) ≤ rounds
    → (search_next comparison rounds c.place >>= item_of) h ≡ some (found comparison (c ∷ cs), h)
unfolding search_next
search_run comparison zero h before c cs s enough = absurd (omega arith)
search_run comparison (suc rounds) h before c [] (there, fresh, at, s) enough =
    let r1 = load_lem h c.place (node c.prio c.item before null) there at in
    elim (Bool-cases (comparison c.item)) [
      | inl k ↦ rw (r1, k, ==_ne c.place null there, r1) refl
      | inr k ↦ rw (r1, k) refl
    ]
search_run comparison (suc rounds) h before c (d ∷ ds) (there, fresh, at, s) enough =
    let r1 = load_lem h c.place (node c.prio c.item before d.place) there at in
    let on = search_run comparison rounds h c.place d ds s (omega arith) in
    elim (Bool-cases (comparison c.item)) [
      | inl k ↦ rw (r1, k, ==_ne c.place null there, r1) refl
      | inr k ↦ rw (r1, k, ==_ne d.place null s.0) on
    ]

-- `eris_list_find` returns, without a fault or a change, the pointer of the first node for which the
-- callback returns 0, and NULL if there is none.
pub find-found :
    (comparison : Ptr → Bool) (h : Heap) (l : EList) (cs : List Cell)
    → IsList h l cs
    → find comparison l h ≡ some (found comparison cs, h)
unfolding find
find-found comparison h l [] r = rw r.counted refl
find-found comparison h l (c ∷ cs) r =
    let some_node : ltb 0 l.size ≡ true = ground (arith, r.counted) in
    rw (some_node, r.head)
      (search_run comparison l.size h null c cs r.chain (omega (arith, r.counted)))

set_item_lem :
    (h : Heap) (p q : Ptr) (n : Node)
    → p ≢ null
    → h p ≡ some n
    → set_item p q h ≡ some (tt, update h p (some (record n { item = q })))
unfolding set_item store
set_item_lem h p q n there at =
    bind_run (load p) (λ n'. store p (record n' { item = q })) h (load_lem h p n there at)

-- `eris_list_remove` of the middle one of three nodes returns its pointer and frees it, and leaves
-- the link of the first node at the freed node: a search that passes the first node then reads it,
-- which is a fault.
pub find-remove_middle :
    (comparison : Ptr → Bool) (h : Heap) (l : EList) (a c b : Cell)
    → IsList h l (a ∷ c ∷ b ∷ [])
    → comparison b.item ≡ false
    → comparison c.item ≡ true
    → (h' : Heap) × (l' : EList) × (remove comparison l h ≡ some ((c.item, l'), h'))
      × (h' c.place ≡ none)
      × (find (λ p. false) l' h' ≡ none)
unfolding remove find search_prev search_next
find-remove_middle comparison h l a c b r not_b is_c =
    let (a_there, a_fresh, a_at, (c_there, c_fresh, c_at, (b_there, b_fresh, b_at, end))) =
      r.chain in
    let na = node a.prio a.item null c.place in
    let nc = node c.prio c.item a.place b.place in
    let nb = node b.prio b.item c.place null in
    let gone = node c.prio null a.place b.place in
    let h2 = update h c.place (some gone) in
    let h3 = update h2 c.place none in
    let c_at2 = update_self h c.place (some gone) in
    let a_far : c.place ≢ a.place = a_fresh.0 in
    let a_at3 : h3 a.place ≡ some na =
      update_other h2 c.place a.place none a_far
      ∙ update_other h c.place a.place (some gone) a_far
      ∙ a_at in
    let c_at3 = update_self h2 c.place none in
    (
      h3,
      record l { size = l.size - 1 },
      rw
          (
            r.counted,
            r.tail,
            load_lem h b.place nb b_there b_at,
            not_b,
            ==_ne c.place null c_there,
            load_lem h c.place nc c_there c_at,
            is_c,
            ==_ne c.place null c_there,
            load_lem h c.place nc c_there c_at,
            set_item_lem h c.place null nc c_there c_at,
            r.head,
            ==_ne c.place a.place a_far,
            ==_ne c.place b.place (λ e. c_fresh.0 (sym e)),
            free_lem h2 c.place gone c_there c_at2,
          )
          refl,
      c_at3,
      rw
          (
            r.counted,
            r.head,
            load_lem h3 a.place na a_there a_at3,
            ==_ne c.place null c_there,
            load-none h3 c.place c_at3,
          )
          refl,
    )
