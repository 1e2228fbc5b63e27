-- ===== src/Adapters/WhatsApp/Addresses.antt =====
-- Numbers on their way to the library and back.
use textbee_gateway.Prelude.{◌≡◌, arith, [], ◌∷◌, ◌++◌, All}
use textbee_gateway.Core.Phone.{Text, is_digit}
use textbee_gateway.Core.Phone.Laws.{IsDigit, IsE164, select_digits}
use textbee_gateway.Adapters.WhatsApp.{whatsapp_host, up_to_at, jid_to_address, address_to_jid}

up_to_at_digits : (s t : Text) → All IsDigit s → up_to_at (s ++ b'@' ∷ t) ≡ s
unfolding up_to_at
up_to_at_digits [] t h = ground arith
up_to_at_digits (c ∷ s) t h = ground (arith, up_to_at_digits s t)

address_to_jid-plus :
    (digits : Text) → All IsDigit digits → address_to_jid (b'+' ∷ digits) ≡ digits ++ whatsapp_host
unfolding address_to_jid is_digit
address_to_jid-plus digits h = rw (select_digits digits h)

-- A number in the form of E.164 comes back from the library's address of it as it was; and where
-- the library's address is digits at the host of persons, what is sent to the address that was made
-- of it goes back there.
pub jid_to_address-address_to_jid :
    (number digits : Text)
    → IsE164 number
    → All IsDigit digits
    → (jid_to_address (address_to_jid number) ≡ number)
      × (address_to_jid (jid_to_address (digits ++ whatsapp_host)) ≡ digits ++ whatsapp_host)
unfolding jid_to_address
jid_to_address-address_to_jid [] digits h k = absurd h
jid_to_address-address_to_jid (c ∷ local) digits h k = (
  rw (h.0, address_to_jid-plus local h.1, up_to_at_digits local _ h.1),
  rw (up_to_at_digits digits _ k, address_to_jid-plus digits k),
)
