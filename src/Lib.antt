-- ===== src/Lib.antt =====
-- Verification of sigmo, which manages cellular modems: it signs users in by one-time passwords,
-- connects modems to the internet and moves the default route to them, forwards messages and calls,
-- runs USSD, writes numbers to SIM cards, and carries the voice of Wi-Fi calls.
--
-- Parts and files. A parent module holds the definitions, which follow the source function by
-- function; its children hold what is proved.
--   Common      errors, lists, Go maps, strings and tests that the other modules share.
--   Auth        Auth/Store and Auth/Codes are internal/app/auth/store.go (IssueOTP is issue_otp, and
--               so on); Auth/Otp is internal/app/handler/auth/otp.go, which calls the store.
--   Internet    Internet/Plan, Internet/Takeover and Internet/Stale are
--               internal/pkg/internet/default_route.go, on the routes of
--               internal/pkg/netlink/netlink.go (Internet/Route); Internet/Netlink is the codec
--               of its requests and dumps; Internet/RouteState is
--               internal/pkg/internet/route_state.go and Internet/ConnectionState is
--               internal/pkg/internet/connection_state.go, where a takeover keeps its changes;
--               Internet/Bearer is internal/pkg/internet/bearer_config.go: from a bearer's
--               answers to addresses and routes, with Internet/Bearer/Setup the calls that set up
--               and clean up, which use Takeover and Stale, Internet/Recovery taking up what an earlier
--               run left, and Internet/Profile the preferences (also those of
--               internal/pkg/internet/connection.go) and the view of a connection,
--               Internet/AlwaysOn the saved state of internal/pkg/internet/always_on.go;
--               Internet/Apn is internal/pkg/internet/apn.go.
--   Storage     the key-value table of internal/pkg/storage/app_state.go, under the state.
--   Forwarder   internal/app/forwarder/relay.go: subscriptions, and in Forwarder/Notices which
--               messages and calls are handed to the notifier.
--   Notify      internal/pkg/notify/notify.go: the channels that an event is sent to. Auth/Otp and
--               Forwarder/Notices send through it.
--   Modem       Modem/Msisdn is internal/pkg/modem/msisdn/msisdn.go, Modem/NetworkPreferences is
--               internal/pkg/modem/network_preferences.go, Modem/Ussd is internal/pkg/ussd.
--               Modem/Atr is the parser of internal/pkg/modem/atr.go, Modem/Constants is
--               internal/pkg/modem/constants.go.
--   Voice       Voice/Amr is pro/voicecodec/amr.go: payloads, storage frames and storage files;
--               Voice/Pcmu is pro/voicecodec/pcmu.go, Voice/Resample is pro/voicecodec/resample.go;
--               Voice/Dialing is pro/call/call_normalize.go and internal/pkg/message/recipient.go.
--   Scenarios   runs of all of these at concrete inputs.
--
-- State and calls. A struct that a method changes is a record that the function takes and returns; a
-- mutex is the order of the calls. An error result is Result, or the list of joined errors. A Go map
-- is an association list, a string the list of its code points or, where the code looks at bytes, of
-- its bytes. Times are nanoseconds. The kernel's routing table, the database, the clients of the
-- notification channels, the modem's D-Bus services, the SIM's reader, random draws and the clock
-- are arguments, or parameters with named laws: KernelLaws, StoreLaws, RadioLaws, DatabaseLaws,
-- CodecLaws, AddrTextLaws, InterfacesLaws, LinkLaws, AddressLaws. A law is used only where a
-- statement names it.
--
-- Bounds and fuel. Integers that the code keeps non-negative are natural numbers; bytes wrap at 256
-- where the code shifts them. fallback_loop and secondary_loop have one round more than there are
-- routes, since each round passes a metric in use; find_tag_loop as many as bytes, since each passes
-- two; read_frames and atr_loop one more than bytes, since each round passes a byte;
-- parse_attrs_loop too, and it has a value of its own for running out of rounds; next_hops as many
-- as bytes, since each round passes four or more.
--
-- Not modelled: HTTP binding, routing and the web frontend; SQL; D-Bus, QMI, MBIM and serial
-- transports; sockets and proxies; the notification clients; the eSIM client; the drivers of Wi-Fi
-- calling; logging. They are input and output around libraries. The bandwidth-efficient AMR payload
-- is not modelled either.
pub mod Common
pub mod Auth
pub mod Internet
pub mod Modem
pub mod Voice
pub mod Forwarder
pub mod Notify
pub mod Storage
pub mod Scenarios
