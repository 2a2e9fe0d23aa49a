-- ===== src/Gateway/Proxy/Calls/Naming.antt =====
-- The channels' numbers run with the ids, and every access to a channel goes through the id that it
-- was made under.
use toolexec.Base.{
  ℕ, suc, ◌+◌, ◌%◌, ◌^◌, ◌<◌, ◌==◌, String, true, ◌≡◌, refl, sym, ◌∙◌, ap, Option, none, some,
  arith, str_eq, eq_iff, if◌then◌else◌, inl, inr, Bool-cases,
}
use toolexec.Base.Decimal.{decimal}
use toolexec.Base.Dict.{Dict, lookup, insert, delete, lookup-insert, lookup-delete}
use toolexec.Gateway.Proxy.{
  Message, Gateway, update, new_gateway, open_request, forget, fill, offer, drain,
}

-- the id under which a channel is made
abbrev pub id_of : ℕ → String
id_of ch = decimal (suc ch)

-- A pending entry and a full channel belong to the id that the channel was made under.
pub record IsNamed (g : Gateway) : Type 0 where
  pub counted : g.request_id ≡ g.made
  pub small : g.made < 2 ^ 64
  pub pending : (id : String) (ch : ℕ) → lookup g.pending id ≡ some ch → id ≡ id_of ch
  pub buffers : (ch : ℕ) (m : Message) → g.buffers ch ≡ some m → m.id ≡ id_of ch

pub new_gateway-IsNamed : IsNamed new_gateway
unfolding new_gateway lookup
new_gateway-IsNamed = record {
  counted = refl;
  small = omega arith;
  pending = λ id ch h. cc;
  buffers = λ ch m h. cc;
}

abbrev Named : Dict ℕ → Type 0
Named m = (id : String) (ch : ℕ) → lookup m id ≡ some ch → id ≡ id_of ch

abbrev Owned : (ℕ → Option Message) → Type 0
Owned f = (ch : ℕ) (m : Message) → f ch ≡ some m → m.id ≡ id_of ch

insert-Named : (m : Dict ℕ) (k : ℕ) → Named m → Named (insert m (id_of k) k)
insert-Named m k v id ch e =
    let found : (if str_eq (id_of k) id then some k else lookup m id) ≡ some ch =
      sym (lookup-insert m (id_of k) k id) ∙ e in
    elim (Bool-cases (str_eq (id_of k) id)) [
      | inl same ↦
          let here : k ≡ ch = cc (rw same at found) in sym ((eq_iff _ id).0 same) ∙ ap id_of here
      | inr other ↦ v id ch (rw other at found)
    ]

delete-Named : (m : Dict ℕ) (k : String) → Named m → Named (delete m k)
delete-Named m k v id ch e = ground (arith, lookup-delete m k id, v id ch)

pub number : {a b : ℕ} → (a == b) ≡ true → a ≡ b
number h = ground arith

update-Owned :
    (f : ℕ → Option Message) (k : ℕ) (o : Option Message)
    → ((m : Message) → o ≡ some m → m.id ≡ id_of k)
    → Owned f
    → Owned (update f k o)
update-Owned f k o own v ch m e = elim (Bool-cases (ch == k)) [
  | inl same ↦ own m (rw same at e) ∙ ap id_of (sym (number same))
  | inr other ↦ v ch m (rw other at e)
]

next_id : (g : Gateway) → IsNamed g → suc g.made < 2 ^ 64 → (g.request_id + 1) % 2 ^ 64 ≡ suc g.made
next_id g v h = omega (arith, v.counted)

pub opened :
    (g : Gateway) → IsNamed g → suc g.made < 2 ^ 64 → (open_request g).0 ≡ (id_of g.made, g.made)
unfolding open_request
opened g v h = rw (next_id g v h)

pub open_request-IsNamed :
    (g : Gateway) → IsNamed g → suc g.made < 2 ^ 64 → IsNamed (open_request g).1
unfolding open_request
open_request-IsNamed g v h = record {
  counted = omega (arith, next_id g v h);
  small = omega arith;
  pending = rw (next_id g v h) (insert-Named g.pending g.made v.pending);
  buffers = update-Owned g.buffers g.made none (λ m e. cc) v.buffers;
}

pub forget-IsNamed : (id : String) (g : Gateway) → IsNamed g → IsNamed (forget id g)
unfolding forget
forget-IsNamed id g v = record {
  counted = v.counted;
  small = v.small;
  pending = delete-Named g.pending id v.pending;
  buffers = v.buffers;
}

store-IsNamed :
    (ch : ℕ) (o : Option Message) (g : Gateway)
    → ((m : Message) → o ≡ some m → m.id ≡ id_of ch)
    → IsNamed g
    → IsNamed (record g { buffers = update g.buffers ch o })
store-IsNamed ch o g own v = record {
  counted = v.counted;
  small = v.small;
  pending = v.pending;
  buffers = update-Owned g.buffers ch o own v.buffers;
}

pub drain-IsNamed : (ch : ℕ) (g : Gateway) → IsNamed g → IsNamed (drain ch g)
unfolding drain
drain-IsNamed ch g v = store-IsNamed ch none g (λ m e. cc) v

fill-IsNamed :
    (ch : ℕ) (m : Message) (o : Option Message) (g : Gateway)
    → m.id ≡ id_of ch
    → IsNamed g
    → IsNamed (fill ch m o g).1
unfolding fill
fill-IsNamed ch m none g own v =
    store-IsNamed ch (some m) g (λ n e. (let same : m ≡ n = cc in rw (← same) own)) v
fill-IsNamed ch m (some old) g own v = v

pub offer-IsNamed :
    (ch : ℕ) (m : Message) (g : Gateway) → m.id ≡ id_of ch → IsNamed g → IsNamed (offer ch m g).1
unfolding offer
offer-IsNamed ch m g own v = fill-IsNamed ch m (g.buffers ch) g own v
