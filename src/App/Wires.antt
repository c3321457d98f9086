-- ===== src/App/Wires.antt =====
-- The middle of `New` in app/app.go: the keepers and what each of them is given, by value or by
-- pointer. A keeper of a library is no more here than what its constructor is given, and its hooks.
pub mod Make
pub mod Modules
pub mod Wired
use mono_chain.Prelude.{
  ℕ, Bool, String, Option, none, some, List, [], ◌∷◌, ◌++◌, ◌==◌, map, if◌then◌else◌,
}
use mono_chain.Sdk.Outcome.{panicked, Result, ok, err, Action}
use mono_chain.Sdk.Address.{Address}

-- The fields of `App` that hold keepers.
pub data Field : Type 0 where
  consensus_params account bank staking mint protocol_pool distr slashing fee_grant : Field
  epochs burn validator authz upgrade ibc gov evidence fee_market : Field
  evm erc20 transfer callback : Field

abbrev pub number : Field → ℕ
number consensus_params = 0
number account = 1
number bank = 2
number staking = 3
number mint = 4
number protocol_pool = 5
number distr = 6
number slashing = 7
number fee_grant = 8
number epochs = 9
number burn = 10
number validator = 11
number authz = 12
number upgrade = 13
number ibc = 14
number gov = 15
number evidence = 16
number fee_market = 17
number evm = 18
number erc20 = 19
number transfer = 20
number callback = 21

-- What a constructor is given: a key of `keys` and one of `tkeys`, the address of the authority, keepers
-- by value, and pointers: to a field of `App`, or the pointer that the field holds.
pub record Given : Type 0 where
  pub store : Option String
  pub transient : Option String
  pub authority : Option Address
  pub values : List Field
  pub pointers : List Field

-- What it was given, where a value is the one of that time: `none` if the field was not set, or else
-- the hooks that the keeper had. The hooks that it has now.
pub record Kept : Type 0 where
  pub store : Option String
  pub transient : Option String
  pub authority : Option Address
  pub values : List (Field × Option (List Field))
  pub pointers : List Field
  pub hooks : List Field

-- The fields that are set, and everything else that was given keepers: message servers,
-- precompiles, middleware, modules.
pub record Wires : Type 0 where
  pub fields : List (Field × Kept)
  pub holders : List (String × Kept)

abbrev pub nothing : Wires
nothing = record { fields = []; holders = [] }

abbrev pub find : Field → List (Field × Kept) → Option Kept
find f [] = none
find f ((g, k) ∷ r) = if number f == number g then some k else find f r

abbrev pub hooks_of : Option Kept → Option (List Field)
hooks_of none = none
hooks_of (some k) = some k.hooks

abbrev pub kept : Given → Wires → Kept
kept g w = record {
  store = g.store;
  transient = g.transient;
  authority = g.authority;
  values = map (λ f. (f, hooks_of (find f w.fields))) g.values;
  pointers = g.pointers;
  hooks = [];
}

-- `app.F = NewKeeper(…)`
abbrev pub assign : Field → Given → Action Wires (Unit {0})
assign f g w = (ok tt, record w { fields = w.fields ++ ((f, kept g w) ∷ []) })

-- Something else that is given keepers.
abbrev pub hold : String → Given → Action Wires (Unit {0})
hold name g w = (ok tt, record w { holders = w.holders ++ ((name, kept g w) ∷ []) })

abbrev pub with_hooks : Field → List Field → List (Field × Kept) → List (Field × Kept)
with_hooks f hs [] = []
with_hooks f hs ((g, k) ∷ r) =
    if number f == number g then (g, record k { hooks = hs }) ∷ r else (g, k) ∷ with_hooks f hs r

-- `app.F.SetHooks(…)`, through the pointer.
abbrev pub set_hooks : Field → List Field → Action Wires (Unit {0})
set_hooks f hs w = (ok tt, record w { fields = with_hooks f hs w.fields })

abbrev pub found : Option Kept → Result (Unit {0})
found none = err panicked
found (some k) = ok tt

-- `*app.F`, which panics on a pointer that is nil.
abbrev pub deref : Field → Action Wires (Unit {0})
deref f w = (found (find f w.fields), w)
