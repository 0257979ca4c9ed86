-- ===== src/Scheduler/Registration.antt =====
-- scheduling.rs `Registration` with its signing messages, and `SchedulerCore::on_registration`.
-- The bincode form of the endpoints is `encode_endpoints` (a relay's two) and `encode_endpoint`.
pub mod Messages
use anymone.Base.{
  ℕ, ◌++◌, Bool, true, false, ◌&&◌, ◌||◌, Option, none, some, List, length, leb, codes, be_bytes,
  has_prefix, if◌then◌else◌,
}
use anymone.Base.Equality.{nat_eq}
use anymone.Base.Sets.{insert, remove}
use anymone.Base.Maps.{put, delete, contains_key}
use anymone.Config.{ExchangePublicKeyWire}
use anymone.Scheduler.State.{SchedulerCore}

pub data Registration : Type 0 where
  relay :
      (pubkey : ℕ) (exchange_pubkey : ExchangePublicKeyWire) (client_addr rpc_url : Option (List ℕ))
      (signature : List ℕ)
      → Registration
  service :
      (tag pubkey : ℕ) (exchange_pubkey : ExchangePublicKeyWire) (descriptor_url : Option (List ℕ))
      (signature : List ℕ)
      → Registration
  watcher : (pubkey : ℕ) (signature : List ℕ) → Registration

pub record Signing : Type 0 where
  pub verify : ℕ → List ℕ → List ℕ → Bool
  pub encode_endpoints : Option (List ℕ) → Option (List ℕ) → List ℕ
  pub encode_endpoint : Option (List ℕ) → List ℕ

-- discovery.rs `valid_endpoint`
unfoldable pub valid_endpoint : Option (List ℕ) → Bool
valid_endpoint none = true
valid_endpoint (some url) =
    leb (length url) 2048 && (has_prefix (codes "https://") url || has_prefix (codes "http://") url)

module _ (s : Signing) where
  unfoldable pub relay_sign_msg :
      ℕ → ExchangePublicKeyWire → Option (List ℕ) → Option (List ℕ) → List ℕ
  relay_sign_msg pubkey xk client_addr rpc_url =
      codes "anymone-relay"
      ++ (be_bytes 32 pubkey
          ++ (xk.ecdh ++ (xk.kem ++ (xk.set_sig ++ s.encode_endpoints client_addr rpc_url))))

  unfoldable pub watcher_sign_msg : ℕ → List ℕ
  watcher_sign_msg pubkey = codes "anymone-watcher" ++ be_bytes 32 pubkey

  unfoldable pub service_sign_msg : ℕ → ℕ → ExchangePublicKeyWire → Option (List ℕ) → List ℕ
  service_sign_msg tag pubkey xk descriptor_url =
      codes "anymone-service"
      ++ (be_bytes 20 tag
          ++ (be_bytes 32 pubkey
              ++ (xk.ecdh ++ (xk.kem ++ (xk.set_sig ++ s.encode_endpoint descriptor_url)))))

  unfoldable pub verify_registration : Registration → Bool
  verify_registration (relay pubkey xk client_addr rpc_url signature) =
      valid_endpoint rpc_url
      && s.verify pubkey (relay_sign_msg pubkey xk client_addr rpc_url) signature
  verify_registration (service tag pubkey xk descriptor_url signature) =
      valid_endpoint descriptor_url
      && s.verify pubkey (service_sign_msg tag pubkey xk descriptor_url) signature
  verify_registration (watcher pubkey signature) =
      s.verify pubkey (watcher_sign_msg pubkey) signature

-- A map entry written from an option: `Some` inserts, `None` removes.
abbrev pub put_option : List (ℕ × List ℕ) → ℕ → Option (List ℕ) → List (ℕ × List ℕ)
put_option m k none = delete m k
put_option m k (some v) = put m k v

module _ {A P : Type 0} where
  unfoldable pub on_registration : SchedulerCore A P → Registration → SchedulerCore A P
  on_registration c (watcher pubkey signature) = record c { watchers = insert c.watchers pubkey }
  on_registration c (relay pubkey xk client_addr rpc_url signature) =
      if contains_key c.integrity_offenders pubkey then c else record c {
        sidelined = remove c.sidelined pubkey;
        registered = insert c.registered pubkey;
        node_rpc_urls = put_option c.node_rpc_urls pubkey rpc_url;
        relay_xpubs = put c.relay_xpubs pubkey xk;
        relay_client_addrs = put_option c.relay_client_addrs pubkey client_addr;
      }
  on_registration c (service tag pubkey xk descriptor_url signature) = record c {
    service_descriptor_urls = put_option c.service_descriptor_urls tag descriptor_url;
    services = put c.services tag pubkey;
  }
