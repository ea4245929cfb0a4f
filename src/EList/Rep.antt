-- ===== src/EList/Rep.antt =====
-- Which list an `eris_list_t` and its nodes stand for.
use erishttp.Common.{◌≡◌, List, length}
use erishttp.EList.Memory.{null, Heap}
use erishttp.EList.{EList}
use erishttp.EList.Seg.{Cell, first, last, Seg}

pub record IsList (h : Heap) (l : EList) (cs : List Cell) : Type 0 where
  pub chain : Seg h null cs null
  pub head : l.head ≡ first cs null
  pub tail : l.tail ≡ last null cs
  pub counted : l.size ≡ length cs
