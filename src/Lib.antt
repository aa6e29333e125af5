-- ===== src/Lib.antt =====
-- PulsePoll: live polls. A creator signs in, makes polls, and manages them; anybody with the link
-- of a poll votes once and watches the results. This library models the frontend, the JavaScript
-- under frontend/src/, and the parts of the server under backend/ that a vote goes through. The
-- pages call the server through one request function, keep their state in React hooks and
-- localStorage, and take live messages from one WebSocket for each poll.
--
-- The parts, and the files that model them:
--   Prelude, Text, Json  shared names and lemmas; JavaScript's strings; the values of JSON
--   Client, Api          frontend/src/api/client.js (`request` is `build`, then `settle` on what
--                        `fetch` gives); auth.js, polls.js and votes.js beside it
--   Socket               frontend/src/hooks/usePollWebSocket.js: a state machine `step` over the
--                        events of React, of the sockets and of the timers
--   Results              the live results that both poll pages keep, with `handleSnapshot` and
--                        `handleVoteUpdate`, and frontend/src/components/PollResults.jsx
--   Auth                 frontend/src/context/AuthContext.jsx: the session and the stored token
--   App                  frontend/src/App.jsx and components/ProtectedRoute.jsx
--   PublicPollPage, CreatePollPage, ManagePollPage, DashboardPage, LoginPage, RegisterPage and
--   HomePage             the pages of these names under frontend/src/pages/; SignIn is what the login
--                        and the registration page share
--   PollCard             frontend/src/components/PollCard.jsx, LiveBadge.jsx and Alert.jsx
--   Navbar               frontend/src/components/Navbar.jsx, with the links of Footer.jsx and the
--                        colours of LogoMark.jsx
--   Icons                frontend/src/components/Icons.jsx
--   Server               backend/internal/votes/service.go and handler.go: a vote and the results, with
--                        the snapshot of websocket/handler.go; below it
--     Create, Editing    polls/validation.go: new polls, and the editing of options
--     Calls              votes/service.go: a vote by the poll's ID as the request spells it
--     Polls, Updating, Listing   polls/service.go and handler.go: the changes and the list of polls
--     Browser            votes/voter.go: the voter's ID of a request, and a browser's requests
--     Redis, Retry       votes/redis_repository.go, and the retries of votes/service.go
--     Hub                websocket/hub.go, client.go, manager.go and `ServeWS`: a step for each event
--                        of the goroutines; Hub/Page follows a vote through the hub to a page
--     Accounts           auth/service.go and jwt.go, and middleware/auth.go
--
-- A component's state is a record with a field for each `useState` and each ref. A handler is a
-- function on it; an asynchronous handler is split at each `await` into a function up to the call,
-- which returns the call, and one that takes the answer. Any interleaving of handlers, answers and
-- messages is then a list of events. No recursion needs fuel. A server's call is a function on the
-- contents of its stores, which are instances of interfaces: in Server/Interface the votes in
-- MongoDB, with their unique index on the voter, and the counters in Redis, with their atomic
-- increment; in Server/Polls and Server/Listing the polls, and in Server/Accounts the users in MongoDB.
-- Server/Calls has the stores of all polls, and calls that spell a poll's ID in any way; the other
-- parts take calls that spell it as `poll.ID.Hex()` does, on the votes and the counters of that poll.
-- Server/Redis makes an instance of the counters out of the commands of Redis. The hub's channels
-- are lists with the capacities of the source, and a panic of Go is an outcome of a step.
--
-- Parameters: `lower` and `upper` are `toLowerCase` and `toUpperCase`, `to_lower` and `trim_space`
-- are `ToLower` and `TrimSpace` of Go; `parse` and `iso` are the parsing and the `toISOString` of
-- `Date`, whose values are instants; `find` is the matching of react-router, of which one theorem
-- supposes that it picks a route of the table, and one that it matches the path of a route by that
-- route. `Libraries` of Server/Accounts are bcrypt, the signing of tokens and the functions on strings,
-- with what the server relies on of them. The answers of the server to other calls are values of the
-- shape that the server sends.
--
-- Bounds: counts are natural numbers and quotients are exact, where JavaScript has doubles, so a
-- percentage may differ where a double does not hold the quotient. Texts are sequences of Unicode
-- characters; their length counts UTF-16 code units, as JavaScript's does.
--
-- Not modelled: of the server, calls of `CastVote` whose increments and publications overlap, the
-- storing of a new poll, its public form, the attributes of the voter's cookie, the limits on
-- requests, the start-up, what it does where the reads that prepare the counters fail, and the
-- expiry of the counters; in the calls of `CastVote` the increment with its retries is one
-- operation that succeeds or does nothing; on the hubs, pings and deadlines, and a write that
-- fails; class names but for the icons, the curves of the icons, fixed captions and the formatting
-- of dates; logging; and, on the voting page and in the form of a new poll, when the timeout beside
-- the copied link fires.
pub mod Prelude
pub mod Text
pub mod Json
pub mod Client
pub mod Api
pub mod Results
pub mod Socket
pub mod Auth
pub mod PublicPollPage
pub mod CreatePollPage
pub mod ManagePollPage
pub mod DashboardPage
pub mod SignIn
pub mod App
pub mod HomePage
pub mod PollCard
pub mod LoginPage
pub mod RegisterPage
pub mod Server
pub mod Navbar
pub mod Icons
