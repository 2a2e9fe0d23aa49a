-- ===== src/Facade/Tools.antt =====
-- What New of the facade sets up.
use toolexec.Base.{◌≡◌, refl, Option, none, some, List, [], ◌∷◌, String, arith}
use toolexec.Base.Dict.{lookup}
use toolexec.Effects.{ok}
use toolexec.Run.Types.{LocalHandler, LocalRegistry}
use toolexec.Run.Config.{Validator, Index, Store, BackendSelector}
use toolexec.Facade.Options.{Options, Facade, local_registry, facade_of, with_required, new}

-- A name stands for a handler in a registry, if there is one.
abbrev pub registered :
    {W : Type 0} → Option (LocalRegistry W) → String → Option (Option (LocalHandler W))
registered none name = none
registered (some reg) name = reg.get name

-- What the options become in a facade.
pub record IsConfigured {W : Type 0} (default_validator : Validator W)
    (default_selector : BackendSelector) (o : Options W) (e : Facade W) : Type 0 where
  pub index : (o.index ≡ some e.index) × (e.runner.config.index ≡ some e.index)
  pub docs : o.docs ≡ some e.docs
  pub handlers :
      (name : String) → registered e.runner.config.local name ≡ lookup o.local_handlers name
  pub validate_input : e.runner.config.validate_input ≡ o.validate_input
  pub validate_output : e.runner.config.validate_output ≡ o.validate_output
  pub validator : e.runner.validator ≡ default_validator
  pub selector : e.runner.backend_selector ≡ default_selector

handlers :
    {W : Type 0} (hs : List (String × Option (LocalHandler W))) (name : String)
    → registered (local_registry hs) name ≡ lookup hs name
unfolding local_registry lookup
handlers [] name = refl
handlers (h ∷ hs) name = refl

facade_of-IsConfigured :
    {W : Type 0} (default_validator : Validator W) (default_selector : BackendSelector)
    (o : Options W) (idx : Index W) (docs : Store W)
    → o.index ≡ some idx
    → o.docs ≡ some docs
    → IsConfigured default_validator default_selector o
        (facade_of default_validator default_selector o idx docs)
unfolding facade_of
facade_of-IsConfigured default_validator default_selector o idx docs hi hd = record {
  index = (hi, refl);
  docs = hd;
  handlers = handlers o.local_handlers;
  validate_input = refl;
  validate_output = refl;
  validator = refl;
  selector = refl;
}

with_required-IsConfigured :
    {W : Type 0} (default_validator : Validator W) (default_selector : BackendSelector)
    (o : Options W) (e : Facade W) (i : Option (Index W)) (d : Option (Store W))
    → o.index ≡ i
    → o.docs ≡ d
    → with_required default_validator default_selector o i d ≡ ok e
    → IsConfigured default_validator default_selector o e
unfolding with_required
with_required-IsConfigured dv ds o e none d hi hd h = absurd (ground arith)
with_required-IsConfigured dv ds o e (some idx) none hi hd h = absurd (ground arith)
with_required-IsConfigured dv ds o e (some idx) (some docs) hi hd h =
    let same : e ≡ facade_of dv ds o idx docs = cc in
    rw same (facade_of-IsConfigured dv ds o idx docs hi hd)

-- New returns only with an index and a store. Then the runner has the index, finds the handlers of
-- the options and no other, and validates input and output exactly if the options say so: an
-- option that is left out is false, and nothing is validated.
pub new-IsConfigured :
    {W : Type 0} (default_validator : Validator W) (default_selector : BackendSelector)
    (o : Options W) (e : Facade W)
    → new default_validator default_selector o ≡ ok e
    → IsConfigured default_validator default_selector o e
unfolding new
new-IsConfigured default_validator default_selector o e h =
    with_required-IsConfigured default_validator default_selector o e o.index o.docs refl refl h
