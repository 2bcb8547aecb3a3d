-- ===== src/Lease/Examples.antt =====
-- Runs of the manager of leases on small inputs.
use open_pass.Base.{String, ◌≡◌, refl, true, false, [], ◌∷◌}
use open_pass.Base.Assoc.{lookup}
use open_pass.Base.Clock.{pos}
use open_pass.Lease.{ok, GenerateRequest, Secret, SecretEngine, Manager, is_alive, generate, renew}
use open_pass.Lease.Lifetime.{renewed, is_alive-renew-generate}

abbrev sample : Secret String
sample = record {
  lease_id = "mock-1";
  lease_duration = pos 60;
  renewable = true;
  data_map = "password";
  created_at = 1;
  engine_type = "mock";
}

abbrev engine : SecretEngine String
engine = record { type_name = "mock"; generate = λ now req. ok sample; revoke = λ now id. true }

abbrev empty_manager : Manager String
empty_manager = record { registry = ("mock", engine) ∷ []; leases = [] }

abbrev request : GenerateRequest
request = record { role = "reader"; ttl = pos 60; permissions = "" }

abbrev generated : Manager String
generated = (generate false 1 2 "mock" request empty_manager).0

is_alive-renew-generate_example :
    ((renew "mock-1" (pos 3600) generated).1 ≡ renewed (pos 3600) sample)
    × (is_alive 63 "mock-1" (renew "mock-1" (pos 3600) generated).0.leases ≡ false)
unfolding generate lookup
is_alive-renew-generate_example =
    is_alive-renew-generate false 1 2 "mock" request empty_manager sample (pos 3600) 63 refl
