-- ===== src/Fleet/Examples.antt =====
-- A sweep of two checkouts, for internal/fleet/query.go and vex.go.
use stego.Prelude.{String, ◌≡◌, ◌≢◌, refl, false, [], ◌∷◌, none, In, ◌==◌, string_eq}
use stego.Fleet.{
  Pin, Service, Unknown, Sweep, find_by_digest, Advisory, Status, statement, judge,
  find_by_digest-not_pinning, statement-not_affected,
}

abbrev rest_pin : Pin
rest_pin = record { component = "rest-api"; version = "1.0.0"; digest = "aa" }

abbrev orders : Service
orders = record { name = "orders"; checkout = "/src/orders"; pins = rest_pin ∷ [] }

abbrev lost : Unknown
lost = record { checkout = "/src/lost"; format_version = 0; reason = "no record" }

abbrev fleet : Sweep
fleet = record {
  services = orders ∷ [];
  unknown = lost ∷ [];
  order = "/src/orders" ∷ "/src/lost" ∷ [];
}

abbrev advisory : Advisory
advisory = record {
  id = "STEGO-2026-0001";
  summary = "faster";
  subject = record { kind = "component"; name = "rest-api"; digest = "bb" };
  successor = none;
}

find_by_digest-not_pinning_example : (rest_pin.digest == "bb") ≡ false
unfolding find_by_digest
find_by_digest-not_pinning_example =
    find_by_digest-not_pinning fleet "bb" orders rest_pin In.here In.here

orders-not_affected : (statement advisory orders).status ≡ Status.not_affected
unfolding statement judge
orders-not_affected = refl

statement-not_affected_example : ◌≢◌ {A = String} "aa" "bb"
statement-not_affected_example =
    statement-not_affected advisory orders rest_pin orders-not_affected In.here refl
