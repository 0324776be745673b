-- ===== src/Client/Trace/Walk.antt =====
-- internal/engine/dnsclient/client.go: where a trace goes and how it ends.
use dnsgolang.Base.{
  ℕ, ◌≤◌, zero, suc, ◌≡◌, refl, ap, ◌⊎◌, inl, inr, true, false, List, [], ◌∷◌, arith, is_empty,
  length, map, take, ◌++◌, Bool-cases, All,
}
use dnsgolang.Base.Text.{Text, txt, join}
use dnsgolang.Client.Query.{Network}
use dnsgolang.Client.Trace.{
  TraceHop, TraceResult, TraceOptions, hop_at, next_servers, after_hop, broken, go_on, trace_from,
}

-- The names that the labels make, from the whole to the last label.
abbrev pub suffixes : List Text → List Text
suffixes [] = []
suffixes (label ∷ labels) = join (txt ".") (label ∷ labels) ∷ suffixes labels

-- A trace broke at its last hop, which named no servers or gave no address of one.
abbrev pub IsBroken : Network → TraceOptions → TraceResult → Type 0
IsBroken net opts out =
    (before : List TraceHop) × (hop : TraceHop) × (out.hops ≡ before ++ (hop ∷ []))
    × (out.broken_at ≡ hop.query)
    × ((is_empty hop.ns ≡ true) ⊎ (next_servers net opts hop ≡ []))

-- Where a trace of these labels went in at most so many rounds.
pub record IsWalk (net : Network) (opts : TraceOptions) (rounds : ℕ) (labels : List Text)
    (out : TraceResult) : Type 0 where
  pub queries : map (λ h. h.query) out.hops ≡ take (length out.hops) (suffixes labels)
  pub rounds_le : length out.hops ≤ rounds
  pub labels_le : length out.hops ≤ length labels
  pub ended :
      ((out.broken_at ≡ []) × ((length out.hops ≡ rounds) ⊎ (length out.hops ≡ length labels)))
      ⊎ IsBroken net opts out

module _ (net : Network) (opts : TraceOptions) where
  broken-IsWalk :
      (rounds : ℕ) (label : Text) (labels : List Text) (hop : TraceHop)
      → hop.query ≡ join (txt ".") (label ∷ labels)
      → (is_empty hop.ns ≡ true) ⊎ (next_servers net opts hop ≡ [])
      → IsWalk net opts (suc rounds) (label ∷ labels) (broken hop)
  broken-IsWalk rounds label labels hop e why = record {
    queries = ap (λ q. q ∷ []) e;
    rounds_le = omega arith;
    labels_le = omega arith;
    ended = inr ([], hop, refl, refl, why);
  }

  after_hop-IsWalk :
      (rounds : ℕ) (label : Text) (labels : List Text) (hop : TraceHop) (rest : TraceResult)
      → hop.query ≡ join (txt ".") (label ∷ labels)
      → IsWalk net opts rounds labels rest
      → IsWalk net opts (suc rounds) (label ∷ labels) (after_hop hop rest)
  after_hop-IsWalk rounds label labels hop rest e w = record {
    queries = λ i. e i ∷ w.queries i;
    rounds_le = omega (arith, w.rounds_le);
    labels_le = omega (arith, w.labels_le);
    ended = elim w.ended [
      | inl (fine, inl all_rounds) ↦ inl (fine, inl (ap suc all_rounds))
      | inl (fine, inr all_labels) ↦ inl (fine, inr (ap suc all_labels))
      | inr (before, last, is_last, at_last, why) ↦
          inr (hop ∷ before, last, ap (λ hs. hop ∷ hs) is_last, at_last, why)
    ];
  }

  go_on-IsWalk :
      (rounds : ℕ) (label : Text) (labels : List Text) (hop : TraceHop) (trace : Text → TraceResult)
      (next : List Text)
      → hop.query ≡ join (txt ".") (label ∷ labels)
      → next_servers net opts hop ≡ next
      → ((server : Text) → IsWalk net opts rounds labels (trace server))
      → IsWalk net opts (suc rounds) (label ∷ labels) (go_on hop trace next)
  unfolding go_on
  go_on-IsWalk rounds label labels hop trace [] e n w =
      broken-IsWalk rounds label labels hop e (inr n)
  go_on-IsWalk rounds label labels hop trace (next ∷ others) e n w =
      after_hop-IsWalk rounds label labels hop (trace next) e (w next)

  -- Where the names that the labels make are not empty, a trace asks first for the whole name, then
  -- for it without its first label, and so on: never more hops than rounds, nor than labels. It
  -- ends with nothing broken when one of these is used up, else it is broken at its last hop, which
  -- named no servers or gave no address of one.
  pub trace_from-IsWalk :
      (rounds : ℕ) (labels : List Text) (server : Text)
      → All (λ name. is_empty name ≡ false) (suffixes labels)
      → IsWalk net opts rounds labels (trace_from net opts rounds labels server)
  unfolding trace_from
  trace_from-IsWalk zero labels server h = record {
    queries = refl;
    rounds_le = omega arith;
    labels_le = omega arith;
    ended = inl (refl, inl refl);
  }
  trace_from-IsWalk (suc rounds) [] server h = record {
    queries = refl;
    rounds_le = omega arith;
    labels_le = omega arith;
    ended = inl (refl, inr refl);
  }
  trace_from-IsWalk (suc rounds) (label ∷ labels) server h =
      let name = join (txt ".") (label ∷ labels) in
      let hop = hop_at net opts server name in
      elim (Bool-cases (is_empty hop.ns)) [
        | inl none' ↦ rw (h.0, none') (broken-IsWalk rounds label labels hop refl (inl none'))
        | inr some' ↦
            rw (h.0, some')
              (go_on-IsWalk rounds label labels hop (λ next. trace_from net opts rounds labels next)
                (next_servers net opts hop) refl refl
                (λ next. trace_from-IsWalk rounds labels next h.1))
      ]
