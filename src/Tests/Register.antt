-- ===== src/Tests/Register.antt =====
-- A registration that works, and others that do not.
use crypto_analytics_platfor.Base.{
  ℕ, ◌+◌, ◌≡◌, refl, [], ◌∷◌, none, some, pos, arith, if◌then◌else◌,
}
use crypto_analytics_platfor.Base.Texts.{str_eq}
use crypto_analytics_platfor.Configuration.{Variables}
use crypto_analytics_platfor.Json.{Json, str, int, object, end, field}
use crypto_analytics_platfor.Register.Template.{literal, variable, outside, pieces, rendered}
use crypto_analytics_platfor.Register.Template.Kept.{rendered-pieces}
use crypto_analytics_platfor.Register.Connect.{
  done, Reply, body, os_error, Machine, Round, again, poll, main,
}
use crypto_analytics_platfor.Register.Connect.Fuel.{IsTicking, poll_fuel}
use crypto_analytics_platfor.Register.Registered.{IsRegistered, main-IsRegistered}
use crypto_analytics_platfor.Tests.Pipeline.{status}

abbrev password_set : Variables
password_set key = if str_eq key "DEBEZIUM_PASSWORD" then some "secret" else none

abbrev template : Json
template = object (
    field "name" (str "crypto-oltp-cdc") (
      field "config"
        (object (
          field "__doc" (str "${UNSET}") (
            field "database.password" (str "${DEBEZIUM_PASSWORD}")
              (field "tasks.max" (int (pos 1)) end))))
        end))

cuts :
    pieces outside "a${B_1}$${c}"
    ≡ literal ""
      ∷ literal "a"
      ∷ literal ""
      ∷ variable "B_1"
      ∷ literal ""
      ∷ literal "$"
      ∷ literal "${"
      ∷ literal "c"
      ∷ literal ""
      ∷ literal "}"
      ∷ literal ""
      ∷ []
unfolding pieces str_eq
cuts = refl

rendered-pieces_example :
    rendered (λ key. none) (pieces outside "jdbc:${HOST}/$db") ≡ "jdbc:${HOST}/$db"
rendered-pieces_example = rendered-pieces "jdbc:${HOST}/$db"

-- Connect answers a request at every second, and its connector runs.
abbrev machine : Reply → Machine
machine reply = record {
  State = ℕ;
  send = λ method path fields s. (reply, s + 1000000);
  now = λ s. (s, s);
  sleep = λ d s. s + d;
  shown = λ value. "value";
}

registers :
    main (machine (body (some (status "RUNNING")))) 300 password_set (done template) 0
    ≡ (done 0, 3000000)
unfolding main str_eq
registers = refl

main-IsRegistered_example :
    IsRegistered (machine (body (some (status "RUNNING")))) password_set (done template) 3000000
main-IsRegistered_example =
    main-IsRegistered (machine (body (some (status "RUNNING")))) 300 password_set (done template) 0
      3000000 registers

refuses_unset :
    (main (machine (body (some (status "RUNNING")))) 300 (λ key. none) (done template) 0).0 ≡ done 2
unfolding main str_eq
refuses_unset = refl

gives_up : (main (machine os_error) 9 password_set (done template) 0).0 ≡ done 1
unfolding main str_eq
gives_up = refl

abbrev looking : ℕ → Round (Unit {0}) × ℕ
looking s = (again, s + 1000000)

machine-IsTicking : IsTicking (machine os_error) looking
machine-IsTicking = record {
  sleeps = λ d s. omega arith;
  reads = λ s. omega arith;
  rounds = λ s. omega arith;
}

poll_fuel_example :
    poll (machine os_error) 2000000 looking 5 9000000 0
    ≡ poll (machine os_error) 2000000 looking 9 9000000 0
poll_fuel_example =
    poll_fuel (machine os_error) 2000000 looking 5 9 9000000 0 machine-IsTicking (omega arith)
      (omega arith)
