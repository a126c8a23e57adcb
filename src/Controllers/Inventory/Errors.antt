-- ===== src/Controllers/Inventory/Errors.antt =====
-- `return ctrl.Result{}, err` in controllers/.
use dockyards_flux.Base.{Option, none, some, ◌≡◌, ◌≢◌, refl, arith, ap}
use dockyards_flux.Base.Outcome.{done, panicked}
use dockyards_flux.Controllers.Inventory.{return_error}

pub return_error-state : {S E : Type 0} (e : Option E) (s : S) → (return_error e s).0 ≡ s
return_error-state none s = refl
return_error-state (some e) s = refl

pub return_error-done :
    {S E : Type 0} (e : Option E) (s s' : S)
    → return_error e s ≡ (s', done tt)
    → (e ≡ none) × (s ≡ s')
return_error-done none s s' h = (refl, ap (λ x. x.0) h)
return_error-done (some e) s s' h = ground arith

pub return_error-ne-panicked :
    {S E : Type 0} (e : Option E) (s : S) → (return_error e s).1 ≢ panicked
return_error-ne-panicked none s h = ground arith
return_error-ne-panicked (some e) s h = ground arith
