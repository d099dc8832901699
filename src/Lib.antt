-- ===== src/Lib.antt =====
-- WOLT receives Wake-on-LAN packets on UDP ports and asks a device, a FortiGate firewall, to wake
-- the host. A web application manages devices, listener mappings, users and settings in a database,
-- and an engine runs one UDP listener for each enabled mapping.
--
-- The parts, with the code that they model:
--   Packet         app/parser.py: parse_magic_packet and build_magic_packet, over lists of bytes
--   RateLimit      app/rate_limit.py: RateLimiter.allow; a state is passed, and the clock reading is
--                  an argument
--   Db             app/infrastructure/database/models.py and connection.py: a record with a list per
--                  table (Db, Db/Models), the constraints as one Boolean test, and sessions as
--                  functions from a database to an exception or a result with a database, whose
--                  writes stay only if it returns (Db/Session). Db/Parts, Db/Rows and
--                  Db/Session/Keeps hold the lemmas that all services use
--   Errors         the exceptions of the services, as values
--   Json           the JSON columns
--   Driver         app/drivers/base.py and registry.py: the driver as an interface
--   Operations     app/application/operations_service.py: ListenerService (Operations/Listeners and
--                  its Change), DeviceService (Operations/Devices with Change and Query) and
--                  EngineStateService (Operations/EngineStates)
--   Engine         app/application/engine_runtime.py: EngineRuntime (Engine) and the handling of one
--                  datagram, ManagedUDPListener._handle (Engine/Handle)
--   Auth           app/application/auth_service.py: Auth/Owner for create_owner and recover_owner,
--                  Auth/Login for login, current_user and logout, Auth/Login/Live for the two together
--   Identity       app/application/identity_service.py: users (Identity), invitations
--                  (Identity/Invite), password resets (Identity/Reset), the SMTP settings
--                  (Identity/Smtp), what the views show (Identity/Users)
--   Observability  app/application/observability_service.py: the UDP range and the retention
--                  settings (Observability/Settings), RetentionService (Observability/Retention), and
--                  the queries: wake_events (Observability/Events), audit_events (Observability/Audit),
--                  dashboard (Observability/Dashboard) and wake_events_csv (Observability/Export, with
--                  a reader of CSV files in Export/Reader)
--   Web            the routes: who may call one (Web/Access), app/web/auth_routes.py (Web/Attempts
--                  for LoginAttemptLimiter, Web/Login for the routes), app/web/operations_routes.py
--                  (Web/Operations), app/web/identity_routes.py (Web/Identity),
--                  app/web/observability_routes.py (Web/Observability), and
--                  app/web/host_routes.py with HostAgentClient of app/infrastructure/host_agent.py
--                  (Web/Host). A router is one function over a data type of its requests
--   Listener       app/listener.py: UDPListener._handle of the older listener
--   Fortigate      app/fortigate.py: build_wol_command, and app/drivers/fortigate_ssh.py: the checks of
--                  the driver (Fortigate/Ssh), its calls to the device and the driver as an instance
--                  of the interface (Fortigate/Ssh/Calls); FortiGateClient of app/fortigate.py, the
--                  client of the older listener (Fortigate/Client)
--   HostAgent      host_agent/server.py: what the agent keeps, and commands and the disk as it uses
--                  them (HostAgent), the environment file by lines (HostAgent/EnvFile), the firewall's
--                  rule (HostAgent/Firewall), jobs (HostAgent/Jobs), the health check
--                  (HostAgent/Health), the files of the runtime (HostAgent/Runtime), images
--                  (HostAgent/Image), the database's dumps (HostAgent/Database), deployment
--                  (HostAgent/Deployment), upgrade and rollback (HostAgent/Upgrade), the running of
--                  a job (HostAgent/Execute), and the requests (HostAgent/Server)
--   WebConfig      app/web/config.py: WebSettings.from_env
--   ListenerConfig app/config.py: load_settings and load_mappings of the older listener
--   Prelude        names, Boolean tests, lists and texts that all parts share
--   Samples, Tests a small database with concrete services, and runs on it
--
-- The parts interact as in the code: the engine and the services share one database; the engine
-- asks DeviceService for the runtime material of a device and the registry for its driver; a
-- datagram goes through the parser and the limiter before the driver is called; the UDP range of the
-- settings bounds the ports of the listener mappings; the published range of the web configuration
-- is what the host agent opens in the firewall. A route asks AuthService for the user of the session's
-- cookie, then one service, and those that change devices or mappings let the engine reconcile itself.
-- The host agent is a process of its own, which
-- the web application asks over a socket; a method of it takes the agent's state and gives back its
-- result, or its exception, with the state as far as it got.
--
-- Numbers: ports and counts are natural numbers. UUIDs and times are natural numbers too, which the
-- code only compares and adds to. Every loop runs over a list, a text or the ports of a finite range,
-- but for two that take fuel: the health check asks at most every two seconds for 120 seconds, so 60
-- rounds are enough (HostAgent/Health), and a number has at most as many decimal digits as its value
-- and one (decimal in Prelude/Chars).
--
-- Parameters, since they are not code of the repository: Argon2, SHA-256, str.lower and SQL's lower
-- (Library), AES-GCM (CredentialCipher), ipaddress and the test whether a port can be bound
-- (Network, Host), the driver of a device (DeviceDriver), the mailer, the collation of the database,
-- Python's str, int and float of a JSON value, json.loads, the regular expression \d, the SSH library
-- with the device behind it (Ssh, and Device of Fortigate/Client), SQL's ilike and the text of a UUID
-- (Sql), isoformat and the rounding of a rate (Reports), the socket to the host agent with the agent
-- behind it (AgentSocket), the machine of the host agent (Machine): what a command prints,
-- given the ones before it, whether a write to the disk succeeds, and what health requests, the
-- registry and copies out of a container give; and what a call draws: the time, new ids, tokens and
-- salts. Two round trips assume of them that the cipher decrypts what it encrypted, and the
-- restoration of the runtime that the disk works. A command that fails, and a write that fails, are
-- taken to change nothing, but for a removal of a directory, which may leave a part of it; a write
-- of the agent's state file is taken to succeed.
--
-- Not modelled: threads and sockets, the inside of an SSH session, the socket loop of the older listener
-- and its start (app/main.py), the start of the host agent with AgentConfig.from_env, the wiring of the
-- web application (app/web/application.py), what FastAPI does before a route's function runs, but for
-- the checks of the UDP range and the retention settings, the list of driver schemas, the text of
-- mails, the timer of RetentionWorker, and the migrations. Sessions run one after another: two that
-- interleave are not modelled, nor is a lost connection to the database.
pub mod Listener
pub mod Web
pub mod Prelude
pub mod Packet
pub mod RateLimit
pub mod Json
pub mod Errors
pub mod Db
pub mod Driver
pub mod Fortigate
pub mod HostAgent
pub mod Operations
pub mod WebConfig
pub mod ListenerConfig
pub mod Engine
pub mod Auth
pub mod Identity
pub mod Observability
pub mod Samples
pub mod Tests
