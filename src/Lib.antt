-- ===== src/Lib.antt =====
-- The backend of a streaming service for short episodes: who may watch an episode, how coins are
-- bought and spent, how a rewarded ad unlocks an episode, and how media become ready.
--
-- Parts and files. All paths below are under backend/apps unless they start with backend/. Model
-- holds the tables as records (the `models.py` files) and one record Store of all tables, the
-- newest row first; Model.Deployment the settings (backend/config/settings); Model.Context what
-- surrounds a call; Model.Effects a service as a function from a store to a value and the
-- committed store, or an error. A `transaction.atomic` block that raises is rolled back, so an
-- error carries no store. Catalog models catalog/context.py (Context), catalog/iso_codes.py
-- (IsoCodes), catalog/locking.py and catalog/eligibility.py (Rights, Eligibility, Episodes); a
-- query is the predicate of its rows; and the checks of catalog/models.py and catalog/metadata.py
-- before a save (Publication). Accounts models accounts/profiles.py and accounts/lifecycle.py.
-- Entitlements models entitlements/policy.py (Policy, Offers) and wallet/capabilities.py. Wallet
-- models wallet/services.py (Unlocks) on the tables, constraints and insert triggers of
-- wallet/models.py and wallet/migrations (Ledger), and wallet/activity.py (Activity). Commerce
-- models commerce/packs.py (Packs, Catalog), commerce/configuration.py (Packs, Registry),
-- commerce/services.py (Identities, Decisions, Fulfilment), commerce/verification.py (Callbacks),
-- commerce/revenuecat.py (Provider), commerce/notifications.py (Notifications), commerce/reads.py
-- (Reads) and commerce/reconciliation.py (Reconciliation). Advertising models
-- advertising/services.py (Intents, Status, Rewards). Progress models progress/models.py on the
-- rows of its table, and progress/continue_watching.py (Continue). Playback models
-- playback/models.py (Assets), playback/ingest.py (Polling, Reconciling, Takedown; Uploads with
-- Submitting, Ingest and Staff; Media takes their calls as steps) and the keys of
-- playback/objectstore.py (ObjectKeys). Service puts the services together: a step is one
-- committed call, a history a sequence of them in the order of their commits; Service.Ledger is
-- the ledger that they implement, one step for each call. The other files prove; Tests holds a
-- small world at which the theorems are applied.
--
-- Interaction. An unlock locks the profile (Accounts) and the episode (Catalog), asks the policy
-- (Entitlements), and writes the ledger, the entitlement and the receipt (Wallet). A purchase
-- event binds its application, finds the owner of its purchase identity and credits the ledger. A
-- reward callback is judged against its intent and the offers in force.
--
-- Choices. Keys, public ids, UUIDs, digests and opaque texts are compared only, so they are
-- numbers; uuid4, token_urlsafe and new keys are drawn from one counter. Hash functions are
-- functions of the record Environment. Instants are microseconds, and a service that reads the
-- clock several times takes several clocks. Row locks and advisory locks are no state: a call is
-- one transaction. Ratios of integers are compared without division: the completion ratio of 0.95
-- as 95 to 100, which for durations in whole seconds is what the product of floats compares. The
-- answers of Firebase, of the video provider and of the ad network are arguments. Fulfilment reads
-- the registry of products that load_products accepted, with its texts as numbers. A JSON document
-- is a tree of the values that json.loads gives, a body its size and that tree; json.dumps, the
-- digests in hexadecimal and the HTTPS request to RevenueCat are parameters. Patterns over codes
-- are lists of the codes. Which characters a regular expression of the database counts as white
-- space depends on its locale and is a field of Store; Python's strip has its own list. A text
-- that may be blank is an option where only its blankness and its equality matter. Recursion is on
-- lists and texts only, so there is no fuel.
--
-- Not modelled: the web framework's views, serializers and administration, the clients of Firebase
-- and the video provider, cryptography, the validation of single columns of media, the artwork of
-- the list to continue watching, the mobile application, infrastructure and scripts. A second
-- statement in a transaction after a caught IntegrityError is taken to run, as the code's handlers
-- expect.
pub mod Prelude
pub mod Model
pub mod Catalog
pub mod Accounts
pub mod Entitlements
pub mod Wallet
pub mod Commerce
pub mod Advertising
pub mod Progress
pub mod Playback
pub mod Service
pub mod Tests
