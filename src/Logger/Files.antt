-- ===== src/Logger/Files.antt =====
-- Files by name, one after another, and what a rotation does to them.
use waspp.Base.{
  ◌≡◌, ◌≢◌, refl, sym, ap, ◌∙◌, List, [], ◌∷◌, ◌++◌, Bytes, equal_iff, Option, none, some, All,
  All-append, append_assoc, append-nil, arith,
}
use waspp.Logger.{Disk, set_file, text_of}

abbrev pub gather : Disk → List Bytes → Bytes
gather disk [] = []
gather disk (n ∷ ns) = text_of (disk n) ++ gather disk ns

abbrev pub Distinct : List Bytes → Type 0
Distinct [] = Unit
Distinct (n ∷ ns) = All (λ k. k ≢ n) ns × Distinct ns

pub set_file-same : (n : Bytes) (x : Option Bytes) (d : Disk) → set_file n x d n ≡ x
set_file-same n x d = ground (arith, equal_iff n n)

pub set_file-other : (n k : Bytes) (x : Option Bytes) (d : Disk) → k ≢ n → set_file n x d k ≡ d k
set_file-other n k x d h = ground (arith, equal_iff k n)

pub gather-set_file :
    (ns : List Bytes) (n : Bytes) (x : Option Bytes) (d : Disk)
    → All (λ k. k ≢ n) ns
    → gather (set_file n x d) ns ≡ gather d ns
gather-set_file [] n x d h = refl
gather-set_file (k ∷ ns) n x d h =
    ap (λ y. text_of y ++ gather (set_file n x d) ns) (set_file-other n k x d h.0)
    ∙ ap (λ y. text_of (d k) ++ y) (gather-set_file ns n x d h.1)

pub gather-append :
    (ns : List Bytes) (n : Bytes) (d : Disk)
    → gather d (ns ++ n ∷ []) ≡ gather d ns ++ text_of (d n)
gather-append [] n d = append-nil (text_of (d n))
gather-append (k ∷ ns) n d =
    ap (λ y. text_of (d k) ++ y) (gather-append ns n d)
    ∙ sym (append_assoc (text_of (d k)) (gather d ns) (text_of (d n)))

pub Distinct-append :
    (ns : List Bytes) (n : Bytes) → Distinct ns → All (λ k. k ≢ n) ns → Distinct (ns ++ n ∷ [])
Distinct-append [] n v h = (tt, tt)
Distinct-append (k ∷ ns) n v h =
    (All-append (λ j. j ≢ k) ns (n ∷ []) v.0 ((λ e. h.0 (sym e)), tt), Distinct-append ns n v.1 h.1)

-- The files after a rotation.
abbrev pub rotated : Bytes → Bytes → Bytes → Disk → Disk
rotated file to text disk =
    set_file file (some []) (set_file to (some text) (set_file file none disk))

pub record MovedAway (archives : List Bytes) (file to text : Bytes) (disk : Disk) : Type 0 where
  pub fresh : rotated file to text disk file ≡ some []
  pub moved : rotated file to text disk to ≡ some text
  pub others : (n : Bytes) → n ≢ file → n ≢ to → rotated file to text disk n ≡ disk n
  pub kept : gather (rotated file to text disk) archives ≡ gather disk archives

pub rotated-MovedAway :
    (archives : List Bytes) (file to text : Bytes) (disk : Disk)
    → to ≢ file
    → All (λ n. n ≢ file) archives
    → All (λ n. n ≢ to) archives
    → MovedAway archives file to text disk
rotated-MovedAway archives file to text disk n h k =
    let d1 = set_file file none disk in
    let d2 = set_file to (some text) d1 in
    record {
      fresh = set_file-same file (some []) d2;
      moved = set_file-other file to (some []) d2 n ∙ set_file-same to (some text) d1;
      others = λ m a b.
          set_file-other file m (some []) d2 a
          ∙ set_file-other to m (some text) d1 b
          ∙ set_file-other file m none disk a;
      kept =
          gather-set_file archives file (some []) d2 h
          ∙ gather-set_file archives to (some text) d1 k
          ∙ gather-set_file archives file none disk h;
    }
