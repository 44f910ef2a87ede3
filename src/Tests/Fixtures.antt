-- ===== src/Tests/Fixtures.antt =====
-- A server with one client online, and the data of the examples.
use mydak_server.Base.{
  ℕ, zero, suc, ◌≡◌, ◌≢◌, refl, sym, ap, ◌∙◌, inl, inr, true, Bool-cases, [], ◌∷◌, none, some,
  arith, Bytes, bytes_eq, bytes_eq_iff, find, count,
}
use mydak_server.Task.{Outcome, done}
use mydak_server.ClientIndex.{ClientIndex}
use mydak_server.Slot.{Slot}
use mydak_server.SlotVector.{SlotVector, slot_at}
use mydak_server.SlotVector.Vacancies.{IsValid, vacancy}
use mydak_server.ClientIndex.{invalid_index}
use mydak_server.Client.{Client}
use mydak_server.Server.{Server}
use mydak_server.Server.Registry.{IsServing}
use mydak_server.Server.Delivery.{IsReady}
use mydak_server.Tests.Memory.{memory, Rows}

abbrev pub bytes_of : ℕ → ℕ → Bytes
bytes_of zero b = []
bytes_of (suc n) b = b ∷ bytes_of n b

abbrev pub alice : Bytes
alice = bytes_of 32 1

abbrev pub bob : Bytes
bob = bytes_of 32 2

abbrev pub hello : Bytes
hello = 104 ∷ 105 ∷ []

abbrev pub alice_index : ClientIndex
alice_index = record { index = 0; generation = 1; db_index = 1 }

abbrev pub alice_client : Client
alice_client = record {
  active = true;
  client_data = record { socket = some 5; messages = some 0; signal_channel = some 5 };
}

abbrev pub alice_slot : Slot Client
alice_slot = record { object = some alice_client; generation = 1 }

abbrev pub one_slot : SlotVector Client
one_slot = record { clients = alice_slot ∷ []; empty_slots = []; global_index = 1 }

abbrev pub alice_rows : Rows
alice_rows = record {
  users = (alice, 0) ∷ (bob, 1) ∷ [];
  messages = (1, record { content = hello; db_index = 2 }) ∷ [];
  next = 3;
}

-- Alice is online, with a message that waits for her; Bob has a row and is offline.
abbrev pub one_online : Server memory
one_online = record {
  clients = one_slot;
  client_indices = (alice, alice_index) ∷ [];
  queues = [] ∷ [];
  writers = (some 5, 0) ∷ [];
  db = record { running = true; connected = true; tables = alice_rows };
}

abbrev pub sends : ℕ → Outcome (Unit {0})
sends channel = done tt

pub one_slot-IsValid : IsValid one_slot
one_slot-IsValid = record { counted = refl; vacancies = vacant }
  where
    vacant : (i : ℕ) → count i [] ≡ vacancy (slot_at one_slot i)
    vacant zero = refl
    vacant (suc i) = refl

pub only_alice :
    (k : Bytes) (i : ClientIndex)
    → find k one_online.client_indices ≡ some i
    → (alice ≡ k) × (alice_index ≡ i)
unfolding find
only_alice k i f = elim (Bool-cases (bytes_eq alice k)) [
  | inl same ↦ ((bytes_eq_iff alice k).0 same, ground arith)
  | inr other ↦ ground arith
]

pub one_online-IsServing : IsServing memory one_online
one_online-IsServing = record {
  registry = record {
    slots = one_slot-IsValid;
    online = λ k i f.
        let (_, e) = only_alice k i f in
        record {
          slot = alice_slot;
          client = alice_client;
          present = ap (λ (j : ClientIndex). slot_at one_slot j.index) (sym e);
          occupied = refl;
          same_life = ap (λ (j : ClientIndex). j.generation) e;
        };
    apart = λ j k i i' f f' _. sym (only_alice j i f).0 ∙ (only_alice k i' f').0;
  };
  served = refl;
}

pub alice_entry : find alice one_online.client_indices ≡ some alice_index
unfolding find bytes_eq
alice_entry = refl

pub bob_offline : find bob one_online.client_indices ≡ none
unfolding find bytes_eq
bob_offline = refl

pub alice-IsReady : IsReady alice_client 0 5
alice-IsReady = record { active = refl; messages = refl; signal_channel = refl }

pub alice_inside : alice_index.index ≢ invalid_index
alice_inside = omega arith
