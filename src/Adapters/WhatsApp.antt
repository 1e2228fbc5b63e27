-- ===== src/Adapters/WhatsApp.antt =====
-- src/adapters/whatsapp-adapter.ts. The socket is the one of a library: what it reports and answers
-- are arguments. A text is read as code units by `units` and written back by `text`; new identifiers
-- and the time are arguments. `sockets` counts the sockets that were made, and `sock` is the number
-- of the one in use.
pub mod Addresses
use textbee_gateway.Prelude.{
  ℕ, suc, ◌+◌, Bool, true, false, not, String, Option, none, some, List, [], ◌∷◌, ◌++◌, Result, ok,
  err, or_default, select, ◌==◌, if◌then◌else◌,
}
use textbee_gateway.Core.Types.{
  ProviderId, Endpoint, chat, mms, inbound, outbound, MessageRecord, sent, received, ChannelKind,
  AdapterEvent, message_incoming,
}
use textbee_gateway.Core.Phone.{Text, is_digit}
use textbee_gateway.Core.Session.{SendMessageOptions}

pub record WhatsAppConfig : Type 0 where
  pub auth_dir : Option String
  pub print_qr_on_connect : Option Bool

pub record WhatsAppAdapter : Type 0 where
  pub id : ProviderId
  pub config : WhatsAppConfig
  pub sock : Option ℕ
  pub sockets : ℕ

unfoldable pub connect : WhatsAppAdapter → WhatsAppAdapter
connect a = record a { sock = some a.sockets; sockets = a.sockets + 1 }

unfoldable pub init : WhatsAppConfig → WhatsAppAdapter → WhatsAppAdapter
unfolding connect
init config a = connect (record a {
  config = record {
    auth_dir = some (or_default config.auth_dir "./.whatsapp-session");
    print_qr_on_connect = some (or_default config.print_qr_on_connect true);
  };
})

is_code : ℕ → Option ℕ → Bool
is_code logged_out none = false
is_code logged_out (some code) = code == logged_out

-- "connection.update" with a closed connection, and the status code of its error if there is one.
-- `logged_out` is the library's `DisconnectReason.loggedOut`.
unfoldable pub on_connection_close : ℕ → Option ℕ → WhatsAppAdapter → WhatsAppAdapter
unfolding connect is_code
on_connection_close logged_out code a = if is_code logged_out code then a else connect a

-- With the socket that it ends.
unfoldable pub shutdown : WhatsAppAdapter → Option ℕ × WhatsAppAdapter
shutdown a = (a.sock, record a { sock = none })

-- `jid.split("@")[0]`
up_to_at : Text → Text
up_to_at [] = []
up_to_at (c ∷ s) = let rest = up_to_at s in if c == b'@' then [] else c ∷ rest

unfoldable pub jid_to_address : Text → Text
unfolding up_to_at
jid_to_address jid = b'+' ∷ up_to_at jid

abbrev pub whatsapp_host : Text
whatsapp_host =
    b'@' ∷ b's' ∷ b'.' ∷ b'w' ∷ b'h' ∷ b'a' ∷ b't' ∷ b's' ∷ b'a' ∷ b'p' ∷ b'p' ∷ b'.' ∷ b'n' ∷ b'e'
    ∷ b't' ∷ []

unfoldable pub address_to_jid : Text → Text
address_to_jid address = select is_digit address ++ whatsapp_host

-- What the adapter reads of a message.
pub record Upserted : Type 0 where
  pub from_me : Bool
  pub conversation : Option String
  pub extended_text : Option String
  pub caption : Option String
  pub remote_jid : Option String

pub data Content : Type 0 where
  image : String → String → Content
  words : String → Content

pub data WhatsAppError : Type 0 where
  not_connected : WhatsAppError
  refused : WhatsAppError

abbrev whatsapp_self : Endpoint
whatsapp_self = record { address = "whatsapp:self"; label = none }

-- A list of URLs that is there and not empty.
content_of : Option (List String) → String → Content
content_of (some (url ∷ urls)) body = image url body
content_of urls body = words body

kind_of : Option (List String) → ChannelKind
kind_of (some (url ∷ urls)) = mms
kind_of urls = chat

module _ (units : String → Text) (text : Text → String) where
  unfoldable pub incoming : String → String → Upserted → WhatsAppAdapter → AdapterEvent
  unfolding jid_to_address
  incoming new_id now m a = message_incoming (record {
    id = new_id;
    provider = a.id;
    kind = chat;
    direction = inbound;
    from = record {
      address = text (jid_to_address (units (or_default m.remote_jid "unknown")));
      label = none;
    };
    to = whatsapp_self;
    body = some (or_default m.conversation (or_default m.extended_text (or_default m.caption "")));
    media_urls = none;
    sent_at = now;
    status = received;
  })

  -- "messages.upsert", with the identifiers of the messages in their order.
  unfoldable pub on_messages_upsert :
      (ℕ → String) → String → Bool → List Upserted → WhatsAppAdapter → List AdapterEvent
  unfolding incoming
  on_messages_upsert new_id now false messages a = []
  on_messages_upsert new_id now true [] a = []
  on_messages_upsert new_id now true (m ∷ messages) a =
      let rest = on_messages_upsert (λ n. new_id (suc n)) now true messages a in
      if m.from_me then rest else incoming (new_id 0) now m a ∷ rest

  -- `deliver` is whether the library sends a content to an address.
  unfoldable pub send_message :
      (Text → Content → Bool)
      → String
      → String
      → Endpoint
      → String
      → SendMessageOptions
      → WhatsAppAdapter
      → Result WhatsAppError MessageRecord
  unfolding content_of kind_of address_to_jid
  send_message deliver new_id now to body opts a = elim a.sock [
    | none ↦ err not_connected
    | some n ↦
        if deliver (address_to_jid (units to.address)) (content_of opts.media_urls body)
        then ok (record {
          id = new_id;
          provider = a.id;
          kind = kind_of opts.media_urls;
          direction = outbound;
          from = or_default opts.from whatsapp_self;
          to = to;
          body = some body;
          media_urls = opts.media_urls;
          sent_at = now;
          status = sent;
        })
        else err refused
  ]
