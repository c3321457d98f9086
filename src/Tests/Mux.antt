-- ===== src/Tests/Mux.antt =====
-- A gateway that reads the templates back, and takes the first route that fits.
use mathlib.Core.Option
use mono_chain.Prelude.{
  ℕ, suc, zero, ◌≡◌, refl, sym, ap, subst, ◌∙◌, ◌↔◌, Bool, false, String, Option, some, none, List,
  [], ◌∷◌, ◌++◌, All, str_eq, eq_iff, if◌then◌else◌, arith,
}
use mono_chain.Sdk.Outcome.{Result, ok, err, Error, library, not_found}
use mono_chain.Sdk.Gateway.{Segment, literal, variable, operations, pool, Fits, PathParams, Gateway}
use mono_chain.Burn.Gateway.{QueryResponse}
use mono_chain.Validator.Types.{Params}

-- The template that operations and a pool were compiled from.
unfoldable pub decode : List ℕ → List String → Option (List Segment)
decode [] names = some []
decode (op ∷ []) names = none
decode (op ∷ i ∷ ops) [] = none
decode (suc (suc op) ∷ i ∷ ops) (s ∷ names) = Option.map (λ t. literal s ∷ t) (decode ops names)
decode (suc zero ∷ a ∷ b ∷ c ∷ d ∷ i ∷ ops) (v ∷ names) =
    Option.map (λ t. variable v ∷ t) (decode ops names)
decode ops names = none

decode_lem : (i : ℕ) (t : List Segment) → decode (operations i t) (pool t) ≡ some t
unfolding decode
decode_lem i [] = refl
decode_lem i (literal s ∷ t) = ap (Option.map (λ u. literal s ∷ u)) (decode_lem (suc i) t)
decode_lem i (variable v ∷ t) = ap (Option.map (λ u. variable v ∷ u)) (decode_lem (suc i) t)

unfoldable pub fit : List Segment → List String → Option PathParams
fit [] [] = some []
fit [] (c ∷ cs) = none
fit (s ∷ t) [] = none
fit (literal s ∷ t) (c ∷ cs) = let rest = fit t cs in if str_eq c s then rest else none
fit (variable v ∷ t) (c ∷ cs) = Option.map (λ ps. (v, c) ∷ ps) (fit t cs)

pub fit_sound :
    (t : List Segment) (cs : List String) (ps : PathParams) → fit t cs ≡ some ps → Fits t cs ps
unfolding fit
fit_sound [] [] ps e = ground arith
fit_sound [] (c ∷ cs) ps e = ground arith
fit_sound (s ∷ t) [] ps e = ground arith
fit_sound (literal s ∷ t) (c ∷ cs) ps e = ground (arith, eq_iff c s, fit_sound t cs ps)
fit_sound (variable v ∷ t) (c ∷ cs) ps e =
    let (rest, fits, same) = (Option.map-eq-some_iff _ _).0 e in
    subst (Fits (variable v ∷ t) (c ∷ cs)) same (refl, fit_sound t cs rest fits)

pub fit_complete :
    (t : List Segment) (cs : List String) (ps : PathParams) → Fits t cs ps → fit t cs ≡ some ps
unfolding fit
fit_complete [] [] ps f = ground arith
fit_complete [] (c ∷ cs) ps f = absurd f
fit_complete (s ∷ t) [] ps f = ground arith
fit_complete (literal s ∷ t) (c ∷ cs) ps f = ground (arith, eq_iff c s, fit_complete t cs ps)
fit_complete (variable v ∷ t) (c ∷ cs) [] f = absurd f
fit_complete (variable v ∷ t) (c ∷ cs) (p ∷ ps) (e, f) =
    ap (Option.map (λ qs. (v, c) ∷ qs)) (fit_complete t cs ps f) ∙ ap (λ q. some (q ∷ ps)) (sym e)

pub data Message : Type 0 where
  burn_message : QueryResponse → Message
  validator_message : Params → Message

pub data Written : Type 0 where
  sent : Message → Written
  failed : Error → Written

abbrev pub Get : Type 0
Get = String × List String

abbrev pub TestRoute : Type 0
TestRoute = String × List Segment × (Get → PathParams → Written)

unfoldable pub first_match : List TestRoute → Get → Written
first_match [] req = failed not_found
first_match ((m, t, handler) ∷ routes) req =
    let later = first_match routes req in
    if str_eq m req.0 then elim (fit t req.1) [ none ↦ later | some ps ↦ handler req ps ] else later

pub first_match_lem :
    (front back : List TestRoute) (t : List Segment) (h : Get → PathParams → Written) (req : Get)
    (ps : PathParams)
    → All (λ r. r.0 ≡ req.0 → fit r.1 req.1 ≡ none) front
    → fit t req.1 ≡ some ps
    → first_match (front ++ (req.0, t, h) ∷ back) req ≡ h req ps
unfolding first_match
first_match_lem [] back t h req ps _ e = ground (arith, eq_iff req.0 req.0)
first_match_lem ((m, u, k) ∷ front) back t h req ps (f, fs) e =
    ground (arith, eq_iff m req.0, first_match_lem front back t h req ps fs e, f)

unfoldable pub new_pattern : ℕ → List ℕ → List String → String → Bool → Result (List Segment)
new_pattern version ops names verb verb_opt = elim (decode ops names) [
  | none ↦ err (library "invalid pattern")
  | some t ↦ ok t
]

pub new_pattern_lem :
    (t p : List Segment) → new_pattern 1 (operations 0 t) (pool t) "" false ≡ ok p → t ≡ p
unfolding new_pattern
new_pattern_lem t p e = cc (e, decode_lem 0 t)

abbrev pub gateway : Gateway Message
gateway = record {
  Ctx = Unit {0};
  HttpRequest = Get;
  Response = Written;
  Metadata = Unit {0};
  Pattern = List Segment;
  method = λ r. r.0;
  components = λ r. r.1;
  request_context = λ _. tt;
  with_stream = λ x. x;
  annotate_context = λ x _. ok x;
  annotate_incoming_context = λ x _. ok x;
  no_metadata = tt;
  join = λ _ _. tt;
  with_metadata = λ x _. x;
  http_error = λ _ _ e. failed e;
  forward_response_message = λ _ _ m. sent m;
  string_value = λ s. ok s;
  string_value_lem = λ s. refl;
  new_pattern = new_pattern;
  matches = fit;
  matches_iff = λ t p e cs ps.
      subst (λ u. (fit u cs ≡ some ps) ↔ Fits t cs ps) (new_pattern_lem t p e)
        (fit_sound t cs ps, fit_complete t cs ps);
  serve = first_match;
  serve_only = λ front back p h req ps f b e. first_match_lem front back p h req ps f e;
}
