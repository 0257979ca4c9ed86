-- ===== src/Scheduler/Registration/Messages.antt =====
-- What the signatures over registrations bind.
use mathlib.Core.List.{append_assoc}
use anymone.Base.{ℕ, ◌≡◌, ◌≢◌, ◌++◌, Option, List, arith}
use anymone.Config.{ExchangePublicKeyWire}
use anymone.Scheduler.Registration.{Signing, relay_sign_msg, watcher_sign_msg, service_sign_msg}

module _ (s : Signing) where
  -- A signature over one kind of registration is never one over another kind: the messages differ,
  -- whatever they carry.
  pub sign_msgs_differ :
      (tag pubkey pubkey' pubkey'' : ℕ) (xk xk' : ExchangePublicKeyWire)
      (client_addr rpc_url descriptor_url : Option (List ℕ))
      → (relay_sign_msg s pubkey xk client_addr rpc_url ≢ watcher_sign_msg s pubkey')
        × (relay_sign_msg s pubkey xk client_addr rpc_url
            ≢ service_sign_msg s tag pubkey'' xk' descriptor_url)
        × (watcher_sign_msg s pubkey' ≢ service_sign_msg s tag pubkey'' xk' descriptor_url)
  unfolding relay_sign_msg watcher_sign_msg service_sign_msg
  sign_msgs_differ tag pubkey pubkey' pubkey'' xk xk' client_addr rpc_url descriptor_url =
      (λ e. ground arith, λ e. ground arith, λ e. ground arith)

  -- Within a relay's message the exchange keys run together: bytes moved from the end of the ECDH
  -- key to the front of the KEM key leave the message as it was, and so the signature valid.
  pub relay_sign_msg_ambiguous :
      (pubkey : ℕ) (front moved kem set_sig : List ℕ) (client_addr rpc_url : Option (List ℕ))
      → relay_sign_msg s pubkey
          (record { ecdh = front ++ moved; kem = kem; set_sig = set_sig })
          client_addr
          rpc_url
        ≡ relay_sign_msg s pubkey
            (record { ecdh = front; kem = moved ++ kem; set_sig = set_sig })
            client_addr
            rpc_url
  unfolding relay_sign_msg
  relay_sign_msg_ambiguous pubkey front moved kem set_sig client_addr rpc_url = simp append_assoc
