-- ===== src/EList/Seg.antt =====
-- Segments of a list in memory.
use erishttp.Common.{
  ◌≡◌, ◌≢◌, refl, sym, ◌∙◌, Option, none, some, List, [], ◌∷◌, ℤ, ==_ne, ==_self, All, arith,
}
use erishttp.EList.Memory.{
  Ptr, null, Node, node, Heap, update, load, set_prev, set_next, store, free, bind_run, unless_null,
}

-- a node: its address, its priority and its pointer
pub record Cell : Type 0 where
  pub place : Ptr
  pub prio : ℤ
  pub item : Ptr

-- the first address of a segment that `after` stands behind
abbrev pub first : List Cell → Ptr → Ptr
first [] after = after
first (c ∷ cs) after = c.place

-- the last address of a segment that stands behind `before`
abbrev pub last : Ptr → List Cell → Ptr
last before [] = before
last before (c ∷ cs) = last c.place cs

-- None of the nodes has this address.
abbrev pub Fresh : Ptr → List Cell → Type 0
Fresh p cs = All (λ c. c.place ≢ p) cs

-- The nodes stand in memory, linked both ways, between `before` and `after`.
abbrev pub Seg : Heap → Ptr → List Cell → Ptr → Type 0
Seg h before [] after = Unit
Seg h before (c ∷ cs) after =
    (c.place ≢ null)
    × Fresh c.place cs
    × (h c.place ≡ some (node c.prio c.item before (first cs after)))
    × Seg h c.place cs after

-- Memory is the same but for these nodes.
abbrev pub Frame : Heap → Heap → List Cell → Type 0
Frame h h' cs = (q : Ptr) → Fresh q cs → h' q ≡ h q

abbrev pub Disjoint : List Cell → List Cell → Type 0
Disjoint cs ds = All (λ d. Fresh d.place cs) ds

pub update_other : (h : Heap) (p q : Ptr) (v : Option Node) → p ≢ q → update h p v q ≡ h q
update_other h p q v ne = rw (==_ne p q ne) refl

pub update_self : (h : Heap) (p : Ptr) (v : Option Node) → update h p v p ≡ v
update_self h p v = rw (==_self p) refl

pub Seg-frame :
    (h h' : Heap) (before after : Ptr) (cs ds : List Cell)
    → Frame h h' cs
    → Disjoint cs ds
    → Seg h before ds after
    → Seg h' before ds after
Seg-frame h h' before after cs [] same apart s = tt
Seg-frame h h' before after cs (d ∷ ds) same (far, apart) (there, fresh, at, s) =
    (there, fresh, same d.place far ∙ at, Seg-frame h h' d.place after cs ds same apart s)

pub Seg-update :
    (h : Heap) (p before after : Ptr) (v : Option Node) (cs : List Cell)
    → Fresh p cs
    → Seg h before cs after
    → Seg (update h p v) before cs after
Seg-update h p before after v [] fresh s = tt
Seg-update h p before after v (c ∷ cs) (ne, far) (there, fresh, at, s) = (
  there,
  fresh,
  update_other h p c.place v (λ e. ne (sym e)) ∙ at,
  Seg-update h p c.place after v cs far s,
)

pub last-Fresh :
    (p before : Ptr) (c : Cell) (cs : List Cell) → Fresh p (c ∷ cs) → last before (c ∷ cs) ≢ p
last-Fresh p before c [] (ne, all) = ne
last-Fresh p before c (d ∷ cs) (ne, all) = last-Fresh p c.place d cs all

pub load_lem : (h : Heap) (p : Ptr) (n : Node) → p ≢ null → h p ≡ some n → load p h ≡ some (n, h)
unfolding load
load_lem h p n there at = rw (==_ne p null there, at) refl

pub set_prev_lem :
    (h : Heap) (p q : Ptr) (n : Node)
    → p ≢ null
    → h p ≡ some n
    → set_prev p q h ≡ some (tt, update h p (some (record n { prev = q })))
unfolding set_prev store
set_prev_lem h p q n there at =
    bind_run (load p) (λ n'. store p (record n' { prev = q })) h (load_lem h p n there at)

pub set_next_lem :
    (h : Heap) (p q : Ptr) (n : Node)
    → p ≢ null
    → h p ≡ some n
    → set_next p q h ≡ some (tt, update h p (some (record n { next = q })))
unfolding set_next store
set_next_lem h p q n there at =
    bind_run (load p) (λ n'. store p (record n' { next = q })) h (load_lem h p n there at)

pub last-ne-null :
    (h : Heap) (before after : Ptr) (c : Cell) (cs : List Cell)
    → Seg h before (c ∷ cs) after
    → last before (c ∷ cs) ≢ null
last-ne-null h before after c [] (there, fresh, at, s) = there
last-ne-null h before after c (d ∷ cs) (there, fresh, at, s) = last-ne-null h c.place after d cs s

-- The back link of the first node is set.
pub relink_prev :
    (h : Heap) (before after p : Ptr) (c : Cell) (cs : List Cell)
    → Seg h before (c ∷ cs) after
    → (h' : Heap) × (set_prev c.place p h ≡ some (tt, h'))
      × Seg h' p (c ∷ cs) after
      × Frame h h' (c ∷ cs)
relink_prev h before after p c cs (there, fresh, at, s) =
    let n = node c.prio c.item p (first cs after) in
    let h' = update h c.place (some n) in
    (
      h',
      set_prev_lem h c.place p (node c.prio c.item before (first cs after)) there at,
      (
        there,
        fresh,
        update_self h c.place (some n),
        Seg-update h c.place c.place after (some n) cs fresh s,
      ),
      λ q far. update_other h c.place q (some n) far.0,
    )

-- The link behind the last node is set.
pub relink_next :
    (h : Heap) (before after p : Ptr) (c : Cell) (cs : List Cell)
    → Seg h before (c ∷ cs) after
    → (h' : Heap) × (set_next (last before (c ∷ cs)) p h ≡ some (tt, h'))
      × Seg h' before (c ∷ cs) p
      × Frame h h' (c ∷ cs)
relink_next h before after p c [] (there, fresh, at, s) =
    let n = node c.prio c.item before p in
    let h' = update h c.place (some n) in
    (
      h',
      set_next_lem h c.place p (node c.prio c.item before after) there at,
      (there, tt, update_self h c.place (some n), tt),
      λ q far. update_other h c.place q (some n) far.0,
    )
relink_next h before after p c (d ∷ cs) (there, fresh, at, s) =
    let (h', run, s', same) = relink_next h c.place after p d cs s in
    (h', run, (there, fresh, same c.place fresh ∙ at, s'), λ q far. same q far.1)

pub free_lem :
    (h : Heap) (p : Ptr) (n : Node)
    → p ≢ null
    → h p ≡ some n
    → free p h ≡ some (tt, update h p none)
unfolding free
free_lem h p n there at =
    bind_run (load p) (λ n' h'. some (tt, update h' p none)) h (load_lem h p n there at)

-- The link behind the last node is set, if there is a node.
pub relink_last :
    (h : Heap) (after p : Ptr) (cs : List Cell)
    → Seg h null cs after
    → (h' : Heap) × (unless_null (last null cs) (set_next (last null cs) p) h ≡ some (tt, h'))
      × Seg h' null cs p
      × Frame h h' cs
relink_last h after p [] s = (h, refl, tt, λ q far. refl)
relink_last h after p (c ∷ cs) s =
    let (h', run, s', same) = relink_next h null after p c cs s in
    (h', rw (==_ne (last null (c ∷ cs)) null (last-ne-null h null after c cs s)) run, s', same)

-- The link in front of the first node is set, if there is a node.
pub relink_first :
    (h : Heap) (before p : Ptr) (cs : List Cell)
    → Seg h before cs null
    → (h' : Heap) × (unless_null (first cs null) (set_prev (first cs null) p) h ≡ some (tt, h'))
      × Seg h' p cs null
      × Frame h h' cs
relink_first h before p [] s = (h, refl, tt, λ q far. refl)
relink_first h before p (c ∷ cs) s =
    let (h', run, s', same) = relink_prev h before null p c cs s in
    (h', rw (==_ne c.place null s.0) run, s', same)

pub store_lem : (h : Heap) (p : Ptr) (n : Node) → store p n h ≡ some (tt, update h p (some n))
unfolding store
store_lem h p n = refl

-- A read of a node that is not allocated is a fault.
pub load-none : (h : Heap) (p : Ptr) → h p ≡ none → load p h ≡ none
unfolding load
load-none h p at = rw at (ground arith)
