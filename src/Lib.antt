-- ===== src/Lib.antt =====
-- StreamBrew is an application for streamers: a web application in TypeScript over a database, and
-- services in Go. This library models the parts of the web application that keep state.
--
-- Restream: a streamer's restream destinations, the ingest key, and the sessions of media nodes that
-- forward a stream to them (apps/web/src/server/restream/store.ts over db/schema.sql). The tables are
-- lists of rows. A transaction is a function that returns the new tables or the error that rolls them
-- back. Restream/Destinations.antt has createDestination, updateDestination, setDestinationEnabled and
-- deleteDestination; Restream/Sessions.antt has rotateIngestKey, authorizePublisher, heartbeat and
-- endSession. The cipher, the hash of a key, random ids and the time are inputs. Rows that refer to a
-- deleted destination are not followed. Writes test the CHECKs of restream_destination and
-- restream_ingest; of restream_session they test the keys and the indexes. Restream/Credentials.antt has the envelope of a stored key
-- (apps/web/src/server/restream/credential-cipher.ts), and Restream/Target.antt the normal form of a
-- server URL (apps/web/src/server/restream/target.ts); AES, UTF-8 and the URL parser are parameters.
-- Restream/Procedures.antt joins them to the procedures of the API
-- (apps/web/src/server/api/trpc/restream.ts).
--
-- Chat: the feed of a live chat and the subscription that fills it
-- (apps/web/src/hooks/use-chat-service-stream.ts, packages/src/chat.ts). Chat/Feed.antt has the
-- reducer; Chat/Subscription.antt has the subscription as a machine over the signals that the
-- transport, the timer and the component give it.
--
-- VideoQueue: the queues of videos, their priorities and currency
-- (apps/web/src/server/video-queue/postgres.ts, apps/web/src/server/pagination.ts,
-- packages/src/currency.ts, and the triggers set_video_priority_id and enqueue_video_metadata_job of db/schema.sql).
-- VideoQueue/Queues.antt has createQueue, listQueues and updateQueue, with the CHECK on a label; VideoQueue/Tables.antt the tables
-- and the trigger; VideoQueue/Videos.antt has moveVideo, updateVideo, updateStatus, addManualVideo and
-- retryMetadata; VideoQueue/Priorities.antt has updatePriority and setQueueCurrency. Amounts of money
-- are natural numbers of hundredths, and quotients are exact until they are rounded to them. Calls
-- follow one another: rows are locked or written by single statements, and two calls at once are not
-- modelled. VideoQueue/Listing.antt has the joins, the order and the window of a listing, and
-- VideoQueue/Shared.antt listSharedPage, the page that everyone may see; VideoQueue/Users.antt has the
-- users (apps/web/src/server/sensors/db/store.ts): getOrCreateUserId, whose loop runs on the list of its
-- draws, setSlug and setPublicQueueSettings, VideoQueue/Donations.antt listDonationsPage, and
-- VideoQueue/OwnerPage.antt listPage, what the owner of a queue sees. VideoQueue/Procedures.antt has the procedures of the API that write
-- (apps/web/src/server/api/trpc/video.ts), and VideoQueue/Views.antt what the pages make of their items
-- (apps/web/src/lib/group-videos-by-priority.ts, apps/web/src/lib/shared-video-timing.ts,
-- apps/web/src/components/ui/page-pagination.tsx).
--
-- Timing: the times of a video, printed and read (packages/src/video-timing.ts). Digits are printed on
-- fuel that is one more than the number, which is enough for every number.
--
-- Alerts: the overlay of donation alerts (apps/web/src/hooks/use-alert-overlay.ts) and its player
-- (apps/web/src/components/alert-player-runtime.ts). Alerts/Source.antt has the signals of OBS;
-- Alerts/Acknowledge.antt the retry loops, whose fuel is the list of what happens in each round;
-- Alerts/Overlay.antt the state with its callbacks as events; Alerts/Player.antt one run of the player,
-- with the abort at any of its awaits. The browser, the network and the clock are inputs. The overlay
-- plays what the player tells: an end of the player is the event `finished` of the overlay.
--
-- Http: streams and requests. Http/Ndjson.antt has the lines of a stream (apps/web/src/lib/ndjson.ts),
-- Http/Body.antt a body with a bound (apps/web/src/server/request-body.ts), Http/Requests.antt that bound
-- on the calls of the API (apps/web/src/server/api/trpc/request.ts). Http/Media.antt answers a media node
-- (apps/web/src/server/restream/http.ts) by the operations of Restream/Sessions.antt, and
-- Http/Uploads.antt takes the files of alerts and Http/AlertMedia.antt gives them out
-- (apps/web/src/server/donation-alert/http.ts). The loops run
-- on the list of what the reader gives, and a result `none` is one that is still awaited. Schemas, JSON,
-- form data and the Go services are parameters.
--
-- Each theorem stands in a module that is named for what it proves, below the module that it is about;
-- Base has what the parts share, and the modules named Tests have examples. Not modelled are the views,
-- the other procedures and stores of the web application, and the Go services, which it meets through
-- the database and HTTP.
pub mod Base
pub mod Restream
pub mod Chat
pub mod Timing
pub mod Alerts
pub mod VideoQueue
pub mod Http
