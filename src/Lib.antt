-- ===== src/Lib.antt =====
-- The decision logic of the dashboard (frontend/src), which turns the risk assessments of the
-- backend into recommendations, action queues, plant figures, a replay, scenario drafts, reports and
-- a demo.
--
-- The parts, and the file that models each; names are the source's in snake_case:
--   Api        frontend/src/api/types.ts: the payloads; Json is what the API types as `unknown`
--   Justification    frontend/src/lib/justification.ts
--   Recommendations  frontend/src/lib/recommendations.ts
--   RootCause        frontend/src/lib/rootCause.ts
--   Stages           frontend/src/lib/pipelineStages.ts
--   Actions          frontend/src/lib/actionPlaybook.ts
--   Tier             frontend/src/lib/tier.ts
--   Kpis             frontend/src/lib/executiveKpis.ts
--   Plants           frontend/src/lib/multiPlant.ts
--   Confidence       frontend/src/lib/confidenceBreakdown.ts
--   Stability        frontend/src/lib/decisionStability.ts
--   Comparison       frontend/src/lib/decisionComparison.ts
--   Changes          frontend/src/lib/changeSummary.ts
--   Narrative        frontend/src/lib/executiveExplanation.ts, operationalNarrative.ts
--   Ceo              frontend/src/lib/ceoDashboard.ts
--   Replay           frontend/src/lib/timeline.ts, frontend/src/lib/replayTimeline.ts
--   Replay/Engine    frontend/src/context/ReplayContext.tsx
--   Builder          frontend/src/lib/scenarioBuilderValidation.ts
--   Builder/Preview  frontend/src/lib/scenarioBuilderPreview.ts
--   Dependencies     frontend/src/lib/dependencyGraph.ts
--   Layout           frontend/src/lib/graphLayout.ts
--   Client           frontend/src/api/client.ts, and the endpoints beside it in Client/Endpoints
--   Demo             frontend/src/lib/demoMode.ts, frontend/src/context/DemoModeContext.tsx
--   Timeline         frontend/src/lib/operatorTimeline.ts
--   Reasons          frontend/src/lib/agentContributionReasons.ts
--   Journal          frontend/src/lib/decisionJournal.ts, frontend/src/lib/decisionWorkspace.ts
--   Approval         frontend/src/lib/decisionApproval.ts
--   Reports          frontend/src/lib/reportTemplates.ts
--   ReportPdf        frontend/src/lib/decisionReportPdf.ts
--   Standards        frontend/src/lib/complianceStandards.ts
--   Procedures       frontend/src/lib/sopReferences.ts, frontend/src/lib/permitIcons.ts
--   Search           frontend/src/lib/enterpriseSearch.ts
--   Moments          frontend/src/lib/scenarioResolution.ts, frontend/src/lib/replayComparison.ts,
--                    frontend/src/hooks/useSmartSearchExtensions.ts
--   Presentation     frontend/src/lib/presentationScript.ts
--   Judge            frontend/src/lib/judgeModePath.ts
--   Judge/Player     frontend/src/components/graph/JudgeModePlayer.tsx
--   Tour             frontend/src/pages/PresentationModePage.tsx
--   Trail            frontend/src/components/graph/RootCauseNavigator.tsx
--   FullScreen       frontend/src/context/PresentationModeContext.tsx
--   QuickView        frontend/src/context/JudgeQuickViewContext.tsx
--   Insights         frontend/src/lib/foresightExplanation.ts, historicalExplanation.ts
--   Format           frontend/src/lib/format.ts
-- A part's functions are in its own file and its properties in the files below it. An assessment's
-- row is parsed by Justification; Recommendations, RootCause, Stages, Kpis, Confidence, Stability,
-- Comparison, Changes and Narrative read the result; Actions orders what Recommendations returns;
-- Plants sums up what Kpis says of each plant; Replay feeds all of them an assessment of the past;
-- Dependencies puts the queue of Actions on levels; Demo plays the moment that Comparison picks;
-- Search looks in the tables of Recommendations and Standards; ReportPdf draws the sections that
-- Reports selects.
--
-- State: the replay's React state and the payload of its query are the record ReplayState, and each
-- callback, effect and timer expiry is an Event that `step` applies. A run is a sequence of events
-- from the first state. Which data the query library still holds for a new target is given with the
-- event. An event is first what `render` makes of it; the effects of the components inside the
-- provider, which are those of QuickView and Tour, run on this, and after them the provider's own
-- effect on a new target, `begin_target`; `step` is an event without such components. The demo's state is the record Demo in the same way, with its pending timer
-- and the paths it went to, and `handle` applies a DemoEvent; QuickView and Tour hold
-- a ReplayState and run in this order. The session storage of Approval and every
-- Map of the source are association lists in the order of insertion. The other parts are pure
-- functions; a loop is a recursion on the list, or on the number of rounds that is left, which is
-- computed as in the source. Two loops have a bound that the source does not have: the search of
-- Layout has a round for each node, since no node is queued twice, and the nested calls
-- of Dependencies are one more than the actions, since no action is visited within itself. Both
-- return `none` when the bound is too small, and for these bounds they never do.
--
-- Parameters: Double is the `number` of JavaScript with the operators that the source uses; IsOrdered
-- is what its order has away from NaN, which no JSON payload can hold. `time_of` is the parse of a
-- timestamp, `local_day` its calendar day, `agent_display_name` and `upper_case` are text functions.
-- Texts are compared by code point, which agrees with the source on timestamps. Lookup tables are
-- read on their own keys; a key such as "constructor" that every JavaScript object inherits is
-- outside the models. Words has the text functions of the platform, Circle its angles, Platform its
-- requests and their texts, JsonText the texts of JSON values, and DemoApi the endpoints of the demo;
-- a request that fails is `none` or a value of its own. The PDF library's page height and its
-- splitting of a text are arguments, and a length on a page is a number of tenths of a millimetre.
--
-- Not modelled: rendering, the query library, the clock, fonts and colours of a PDF, the locale texts
-- of dates, and the Python backend, whose payloads are inputs here.
pub mod Prelude
pub mod Api
pub mod Justification
pub mod Recommendations
pub mod RootCause
pub mod Stages
pub mod Actions
pub mod Tier
pub mod Kpis
pub mod Plants
pub mod Confidence
pub mod Stability
pub mod Comparison
pub mod Changes
pub mod Narrative
pub mod Ceo
pub mod Replay
pub mod Builder
pub mod Dependencies
pub mod Layout
pub mod Client
pub mod Demo
pub mod Timeline
pub mod Reasons
pub mod Journal
pub mod Approval
pub mod Reports
pub mod ReportPdf
pub mod Standards
pub mod Procedures
pub mod Search
pub mod Moments
pub mod Presentation
pub mod Judge
pub mod FullScreen
pub mod QuickView
pub mod Tour
pub mod Trail
pub mod Insights
pub mod Format
pub mod Tests
