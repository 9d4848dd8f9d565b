-- ===== src/LiveReceiver/Statics.antt =====
-- livereceiveractor.cpp, Init, createActor and the test of the constructor: the static members of the
-- actor, and what makes the actors of the clients.
--
-- The registering calls of the media library in Init are left out.
use tvie_rtmp.Base.{ℕ, ◌≡◌, refl, ap, Bool, true, false, List, [], ◌∷◌, if◌then◌else◌}
use tvie_rtmp.Exception.{internal_error, Result, ok, err}
use tvie_rtmp.LiveReceiver.{LiveReceiverActor, new_actor}

pub record Statics : Type 0 where
  pub initialized : Bool
  pub url_prefix : List ℕ
  pub fmt : List ℕ

unfoldable pub no_statics : Statics
no_statics = record { initialized = false; url_prefix = []; fmt = [] }

unfoldable pub init : List ℕ → List ℕ → Statics → Statics
init url_prefix fmt s =
    if s.initialized then s else record { initialized = true; url_prefix = url_prefix; fmt = fmt }

-- The constructor.
unfoldable pub construct : Statics → Result LiveReceiverActor
construct s = if s.initialized then ok new_actor else err internal_error

unfoldable pub create_actor : Statics → Result LiveReceiverActor
create_actor = construct

-- The calls of Init, the first at the front.
unfoldable pub init_all : List (List ℕ × List ℕ) → Statics → Statics
init_all [] s = s
init_all ((url_prefix, fmt) ∷ later) s = init_all later (init url_prefix fmt s)

init_all_keeps :
    (calls : List (List ℕ × List ℕ)) (url_prefix fmt : List ℕ)
    → init_all calls (record { initialized = true; url_prefix = url_prefix; fmt = fmt })
      ≡ record { initialized = true; url_prefix = url_prefix; fmt = fmt }
unfolding init_all init
init_all_keeps [] url_prefix fmt = refl
init_all_keeps ((p, f) ∷ later) url_prefix fmt = init_all_keeps later url_prefix fmt

-- However often Init is called, the first call decides, and actors can be made.
pub init_all_first :
    (calls : List (List ℕ × List ℕ)) (url_prefix fmt : List ℕ)
    → (init_all ((url_prefix, fmt) ∷ calls) no_statics
        ≡ record { initialized = true; url_prefix = url_prefix; fmt = fmt })
      × (create_actor (init_all ((url_prefix, fmt) ∷ calls) no_statics) ≡ ok new_actor)
unfolding init_all init no_statics construct create_actor
init_all_first calls url_prefix fmt =
    let e = init_all_keeps calls url_prefix fmt in (e, ap create_actor e)
