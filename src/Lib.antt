-- ===== src/Lib.antt =====
-- Ponta Drive: the API of a drive over S3-compatible buckets. A user connects cloud accounts; each
-- account shows as a tree of virtual folders and files (`drive_items`), while the objects of the
-- files lie flat in the bucket. The drive service keeps the rows, asks the driver of the account
-- for URLs and transfers, and counts the storage that is used.
--
--   Base       the shared names: Boolean tests, lists, int64 arithmetic (Base/Int), Go's strings and
--              number formats (Base/Text, Base/Decimal), three-way comparisons and sorting
--              (Base/Order).
--   Models     app/models/drive_item.go, cloud_account.go, upload_session.go and the data of
--              app/contracts/storage.go.
--   Listing    app/services/drive_cursor.go, `ListItems` of app/services/cloud_drive_service.go and
--              the paging of `Index` in app/http/controllers/drive_item_controller.go: Shown,
--              Keyset and Walk, NullCursor and TimeCursor hold proofs.
--   Tree       the walks over parent links: `GetBreadcrumb`, `isSelfOrDescendant`,
--              `CollectDescendantItems`; of the last, Search holds the loop, Rows the lemmas on
--              lists of rows, Inside the subtree of a folder, Descendants and Gathered what is
--              collected, and Counting how many rows that are.
--   Upload     the parts of app/models/upload_session.go and the number of parts of
--              `InitiateMultipartUpload`.
--   Preview    app/services/preview_policy.go.
--   Service    every method of app/services/cloud_drive_service.go, and the driver factory of
--              app/services/storage/factory.go (Service/Factory): Items, Deletion, Uploads,
--              Multipart, Downloads and Scan hold the methods, Calls what a sequence of their
--              calls does; Database, Runs, Post, Folders, Drivers, Reading, Storage, Erasure and
--              Isolation hold laws and proofs.
--   S3         app/services/storage/s3_driver.go, method by method: Objects, Deletes, Cors,
--              Multipart, Create; Batches, Ranges and RoundTrips hold proofs.
--   Web        the answers of the controllers and the actions that handlers are written in; Reads
--              holds proofs.
--   Auth       app/http/controllers/auth_controller.go, app/http/middleware/jwt_auth.go,
--              app/models/user.go and password_reset_token.go: Users, Handlers; Commands holds the
--              command of app/console/commands/create_user.go; Reset, Link and Enrolment hold
--              proofs.
--   Api        app/http/controllers/drive_item_controller.go (Api/Items, Api/Content, and
--              Api/Listing for `Index`), upload_controller.go (Api/Uploads),
--              app/jobs/sync_s3_bucket_job.go (Api/Sync), and of app/services/activity_service.go
--              what writes the log; Origin holds app/http/helpers/request_helper.go; Guard and
--              Pages hold proofs.
--   Accounts   app/http/controllers/cloud_account_controller.go: the changes of an account, its
--              view for a client (Accounts/Views), and the handlers (Accounts/Handlers); and
--              app/services/storage/credential_service.go (Accounts/Secrets).
--   Dashboard  app/services/dashboard_service.go, app/http/controllers/dashboard_controller.go, and
--              the queries of app/services/activity_service.go: Sizes, Summary; Suggestions and
--              Recent hold proofs.
--   Routes     routes/web.go and app/http/middleware/set_locale.go; Guarded holds proofs.
--   Tests      runs at concrete inputs.
--
-- How they interact: a method of the service is an action on a state that holds the outside world
-- and the factory's cache of drivers. It finds rows through the tables of the database, gets the
-- driver of the account from the factory, calls the driver, and writes rows. What stands outside
-- the repository is a parameter: the database and its queries (`Table`), the driver behind
-- `contracts.CloudDriver` (`Driver`), identifiers, time, decryption and JSON (`Outside`,
-- `PartsCodec`, `CursorCodec`), and the way the database compares and casts values (`Server`); the
-- calls of the AWS SDK (`S3.Client`), over which the S3 driver fills the interface `Driver`; the
-- tokens, hashes and mails of the framework (`Auth.World`), its queue (`Queue`), its console
-- (`Console`), and its choice among the routes. A handler runs the service's actions on the service's
-- state, and turns an error into an answer; a request comes to a handler through the middleware of its
-- route. Of these a theorem assumes only the laws that it names: `TableLaws`, `Answers`,
-- `Service.Isolation.Apart`, `ServerLaws`, `CursorCodecLaws`, `PartsCodecLaws`, `CryptLaws`,
-- `Auth.Link.Apart`, `Auth.Link.Fresh`, `Enrols`, `Erases`.
--
-- Bounds and fuel: int64 values are integers; sums that Go computes on them are wrapped where they
-- may overflow (`wrap`). The walks up the tree have the code's own caps as fuel, 100 and 10000. The
-- loop of a client over the pages has one page more than there are rows. The loops of
-- `CollectDescendantItems` over the queue and of `ScanBucket` over the pages of a bucket have the
-- fuel that the caller gives, and end in an error of their own without it; for the first, two rounds
-- more than the account has rows are enough. `DeleteObjects` has a round for each key, of which it
-- needs one for each thousand. The loop of `humanizeBytes` has six rounds.
--
-- Not modelled: logging, the texts of errors (each is a constructor of `Error`), the context of a
-- request, and the files that are glue over the framework: facades, configuration, migrations, mail
-- templates and validation rules. A float is left as the two numbers whose quotient it is.
--
-- Where the model fixes what the program leaves open: `to_lower` lowers ASCII, and the two codes
-- beyond it whose lower case is ASCII, while `strings.ToLower` lowers every letter of Unicode. The
-- listing puts NULL first in ascending order, as MySQL, MariaDB and SQLite do; Postgres, which the
-- configuration offers too, puts it last. Nothing is assumed of the text of a time in a cursor, nor
-- of the update that takes the default from the other accounts.
pub mod Base
pub mod Models
pub mod Listing
pub mod Tree
pub mod Upload
pub mod Preview
pub mod Service
pub mod S3
pub mod Web
pub mod Auth
pub mod Api
pub mod Accounts
pub mod Dashboard
pub mod Routes
pub mod Tests
