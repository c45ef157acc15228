-- ===== src/Lir/Dominators.antt =====
-- `lirDominators` and `lirSuccessors` of internal/concept/lir_borrow.go, lines 144 to 216. The two
-- loops that run until nothing changes have fuel, and return `none` where it runs out; `n` is
-- `len(f.Blocks)`.
pub mod Walks
pub mod Reached
pub mod Marked
pub mod Meet
pub mod Improve
pub mod Start
pub mod Rounds
pub mod Exact
use concept.Base.{
  ℕ, zero, suc, ◌+◌, ◌*◌, ◌-◌, ℤ, pos, pos_part, List, [], ◌∷◌, map, Bool, true, false, ◌&&◌, ◌||◌,
  not, Option, none, some, if◌then◌else◌, ◌==◌, ◌==ℤ◌, in_range, length, any, str_eq,
}
use concept.Base.Bits.{bit, set, get_or, replicate, and_bits, differ}
use concept.Lir.Function.{LirBlock}

unfoldable pub lir_successors : LirBlock → List ℤ
lir_successors b =
    if str_eq b.term.op "jump"
    then b.term.on_true ∷ []
    else if str_eq b.term.op "branch"
    then b.term.on_true ∷ b.term.on_false ∷ []
    else []

-- What is marked, and whether this round has changed anything.
abbrev pub Marks : Type 0
Marks = List Bool × Bool

unfoldable pub mark : ℕ → ℤ → Marks → Marks
mark n t s =
    if in_range t n && not (bit s.0 (pos_part t)) then (set s.0 (pos_part t) true, true) else s

unfoldable pub mark_all : ℕ → List ℤ → Marks → Marks
mark_all n [] s = s
mark_all n (t ∷ ts) s = mark_all n ts (mark n t s)

-- One round of the first loop, from block i on.
unfoldable pub mark_round : ℕ → ℕ → List LirBlock → Marks → Marks
mark_round n i [] s = s
mark_round n i (b ∷ bs) s =
    mark_round n (suc i) bs (if bit s.0 i then mark_all n (lir_successors b) s else s)

unfoldable pub reach_loop : ℕ → List LirBlock → List Bool → Option (List Bool)
reach_loop zero blocks r = none
reach_loop (suc fuel) blocks r =
    let s = mark_round (length blocks) 0 blocks (r, false) in
    let rest = reach_loop fuel blocks s.0 in if s.1 then rest else some s.0

abbrev pub Rows : Type 0
Rows = List (List Bool)

abbrev pub row : Rows → ℕ → List Bool
row d i = get_or d i []

-- The row of the entry, and of any other block.
unfoldable pub start_row : List Bool → ℕ → Bool → List Bool
start_row reachable i r =
    if i == 0 then set (replicate (length reachable) false) 0 true else map (λ x. r && x) reachable

unfoldable pub start_rows : List Bool → ℕ → List Bool → Rows
start_rows reachable i [] = []
start_rows reachable i (r ∷ rs) = start_row reachable i r ∷ start_rows reachable (suc i) rs

-- The loop over the successors of block p, for the row v of block i.
unfoldable pub meet_targets : ℕ → Bool → List Bool → List ℤ → List Bool → List Bool
meet_targets i reached d_p [] v = v
meet_targets i reached d_p (t ∷ ts) v =
    meet_targets i reached d_p ts (if t ==ℤ pos i && reached then and_bits v d_p else v)

unfoldable pub meet : List Bool → Rows → ℕ → ℕ → List LirBlock → List Bool → List Bool
meet reachable d i p [] v = v
meet reachable d i p (b ∷ bs) v =
    meet reachable d i (suc p) bs (meet_targets i (bit reachable p) (row d p) (lir_successors b) v)

unfoldable pub new_row : List LirBlock → List Bool → Rows → ℕ → List Bool
new_row blocks reachable d i =
    set (meet reachable d i 0 blocks (replicate (length blocks) true)) i true

abbrev pub Improved : Type 0
Improved = Rows × Bool

unfoldable pub improve_row : List LirBlock → List Bool → ℕ → Improved → Improved
improve_row blocks reachable i s =
    if bit reachable i
    then (let v = new_row blocks reachable s.0 i in (set s.0 i v, s.1 || differ v (row s.0 i)))
    else s

-- One round of the second loop: k blocks from block i on.
unfoldable pub improve_round : List LirBlock → List Bool → ℕ → ℕ → Improved → Improved
improve_round blocks reachable zero i s = s
improve_round blocks reachable (suc k) i s =
    improve_round blocks reachable k (suc i) (improve_row blocks reachable i s)

unfoldable pub dominator_loop : ℕ → List LirBlock → List Bool → Rows → Option Rows
dominator_loop zero blocks reachable d = none
dominator_loop (suc fuel) blocks reachable d =
    let s = improve_round blocks reachable (length blocks - 1) 1 (d, false) in
    let rest = dominator_loop fuel blocks reachable s.0 in if s.1 then rest else some s.0

unfoldable pub dominators_from : List LirBlock → Option (List Bool) → Option Rows
dominators_from blocks none = none
dominators_from blocks (some reachable) =
    dominator_loop (suc (length blocks * length blocks)) blocks reachable
      (start_rows reachable 0 reachable)

-- Fuel: at most n blocks are marked, and at most n * n entries become false.
unfoldable pub lir_dominators : List LirBlock → Option Rows
unfolding dominators_from
lir_dominators [] = some []
lir_dominators (b ∷ bs) =
    let blocks = b ∷ bs in
    dominators_from blocks
      (reach_loop (length blocks) blocks (set (replicate (length blocks) false) 0 true))
