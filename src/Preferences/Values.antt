-- ===== src/Preferences/Values.antt =====
-- The values that `serialize` of src/preferences.cpp writes are read back, one by one.
use Prim.Native.Nat.{◌^◌}
use ovmesh_drpp.Base.{
  ℕ, ◌<◌, ◌≤◌, Bool, true, false, some, Bytes, equal, equal_iff, ◌≡◌, refl, sym, arith, subst, ℤ,
  ◌⊎◌, inl, inr,
}
use ovmesh_drpp.Decimal.{write_digits, to_string, signed_to_string}
use ovmesh_drpp.Decimal.RoundTrip.{from_chars-to_string, signed_from_chars-signed_to_string, Holds}
use ovmesh_drpp.Preferences.{DesktopReceiver, synthetic, hack_rf, rtl_sdr, rak5146, known_baud}
use ovmesh_drpp.Preferences.Fields.{
  boolean_value, integer_value, signed_integer_value, baud_value, baud_loop,
}
use ovmesh_drpp.Preferences.Parse.{receiver_value}
use ovmesh_drpp.Preferences.Serialize.{switch, receiver_name}

equal_self : (s : Bytes) → equal s s ≡ true
equal_self s = (equal_iff s s).1 refl

pub boolean_value-switch : (b : Bool) → boolean_value (switch b) ≡ some b
unfolding boolean_value equal
boolean_value-switch true = refl
boolean_value-switch false = refl

pub receiver_value-receiver_name :
    (r : DesktopReceiver) → receiver_value 8 (receiver_name r) ≡ some r
unfolding receiver_value equal
receiver_value-receiver_name synthetic = refl
receiver_value-receiver_name hack_rf = refl
receiver_value-receiver_name rtl_sdr = refl
receiver_value-receiver_name rak5146 = refl

pub integer_value-to_string :
    (limit n : ℕ) → limit < 10 ^ 20 → n ≤ limit → integer_value limit (to_string n) ≡ some n
unfolding integer_value
integer_value-to_string limit n w h =
    rw (from_chars-to_string limit n (omega arith) h) (rw (equal_self (to_string n)) refl)

pub signed_integer_value-signed_to_string :
    (limit : ℕ) (z : ℤ)
    → limit < 2 ^ 63
    → Holds limit z
    → signed_integer_value limit (signed_to_string z) ≡ some z
unfolding signed_integer_value
signed_integer_value-signed_to_string limit z w h =
    rw (signed_from_chars-signed_to_string limit z w h) (rw (equal_self (signed_to_string z)) refl)

read_known :
    (n k : ℕ) → n ≡ k → baud_value (to_string k) ≡ some k → baud_value (to_string n) ≡ some n
read_known n k h known = subst (λ m. baud_value (to_string m) ≡ some m) (sym h) known

read_baud :
    (n : ℕ)
    → (n ≡ 4800) ⊎ ((n ≡ 9600) ⊎ ((n ≡ 19200) ⊎ ((n ≡ 38400) ⊎ ((n ≡ 57600) ⊎ (n ≡ 115200)))))
    → baud_value (to_string n) ≡ some n
unfolding baud_value baud_loop write_digits
read_baud n (inl a) = read_known n 4800 a refl
read_baud n (inr (inl a)) = read_known n 9600 a refl
read_baud n (inr (inr (inl a))) = read_known n 19200 a refl
read_baud n (inr (inr (inr (inl a)))) = read_known n 38400 a refl
read_baud n (inr (inr (inr (inr (inl a))))) = read_known n 57600 a refl
read_baud n (inr (inr (inr (inr (inr a))))) = read_known n 115200 a refl

pub baud_value-to_string : (n : ℕ) → known_baud n ≡ true → baud_value (to_string n) ≡ some n
unfolding known_baud
baud_value-to_string n h = read_baud n (ground arith)
