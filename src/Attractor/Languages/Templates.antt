-- ===== src/Attractor/Languages/Templates.antt =====
-- The registry of internal/attractor/languages.go.
use octopusgarden.Prelude.{◌++◌, [], codes, Dict, Text, ◌∷◌}

-- An example of the file format: an entry file and a Dockerfile.
pub record ExampleBlock : Type 0 where
  pub entry_file : Text
  pub entry_content : Text
  pub dockerfile : Text

pub record LanguageTemplate : Type 0 where
  pub name : Text
  pub base_image : Text
  pub http_example : ExampleBlock
  pub cli_example : ExampleBlock
  pub tui_example : ExampleBlock
  pub grpc_setup : Text
  pub dep_rules : Text

-- The zero value, which the templates without a TUI example hold.
abbrev no_example : ExampleBlock
no_example = record { entry_file = []; entry_content = []; dockerfile = [] }

abbrev pub go_template : LanguageTemplate
go_template = record {
  name = codes "Go";
  base_image = codes "golang:1.25-alpine";
  http_example = record {
    entry_file = codes "main.go";
    entry_content =
        codes "package main\n"
        ++ codes "\n"
        ++ codes "import \"net/http\"\n"
        ++ codes "\n"
        ++ codes "func main() {\n"
        ++ codes "\thttp.ListenAndServe(\":8080\", nil)\n"
        ++ codes "}";
    dockerfile =
        codes "FROM golang:1.25-alpine\n"
        ++ codes "WORKDIR /app\n"
        ++ codes "COPY go.mod ./\n"
        ++ codes "COPY . .\n"
        ++ codes "RUN go mod tidy\n"
        ++ codes "RUN go build -o server .\n"
        ++ codes "CMD [\"./server\"]";
  };
  cli_example = record {
    entry_file = codes "main.go";
    entry_content =
        codes "package main\n"
        ++ codes "\n"
        ++ codes "import (\n"
        ++ codes "\t\"fmt\"\n"
        ++ codes "\t\"os\"\n"
        ++ codes ")\n"
        ++ codes "\n"
        ++ codes "func main() {\n"
        ++ codes "\tif len(os.Args) < 2 {\n"
        ++ codes "\t\tfmt.Fprintln(os.Stderr, \"usage: myapp <command>\")\n"
        ++ codes "\t\tos.Exit(1)\n"
        ++ codes "\t}\n"
        ++ codes "\tfmt.Println(\"Hello from\", os.Args[1])\n"
        ++ codes "}";
    dockerfile =
        codes "FROM golang:1.25-alpine\n"
        ++ codes "WORKDIR /app\n"
        ++ codes "COPY go.mod ./\n"
        ++ codes "COPY . .\n"
        ++ codes "RUN go mod tidy\n"
        ++ codes "RUN go build -o /usr/local/bin/myapp .";
  };
  tui_example = record {
    entry_file = [];
    entry_content = [];
    dockerfile =
        codes "FROM golang:1.25-alpine\n"
        ++ codes "WORKDIR /app\n"
        ++ codes "COPY go.mod ./\n"
        ++ codes "COPY . .\n"
        ++ codes "RUN go mod tidy\n"
        ++ codes "RUN go build -o /usr/local/bin/myapp .";
  };
  grpc_setup =
      codes "RUN apk add --no-cache protobuf-dev && go install "
      ++ codes "google.golang.org/protobuf/cmd/protoc-gen-go@latest && go install "
      ++ codes "google.golang.org/grpc/cmd/protoc-gen-go-grpc@latest";
  dep_rules =
      codes "- For Go: use golang:1.25-alpine as the Docker base image — older "
      ++ codes "versions will fail to resolve modern dependencies\n"
      ++ codes "- For Go: use net/http (not gorilla/mux), use crypto/rand or math/rand "
      ++ codes "for UUIDs (not google/uuid)\n"
      ++ codes "- For Go: generate only go.mod with no \"require\" block (or minimal "
      ++ codes "requires). In the Dockerfile, COPY all source files first, THEN run \"go "
      ++ codes "mod tidy\" to resolve dependencies, THEN build. Example Dockerfile "
      ++ codes "order: COPY go.mod ./ then COPY . . then RUN go mod tidy then RUN go "
      ++ codes "build";
}

abbrev pub python_template : LanguageTemplate
python_template = record {
  name = codes "Python";
  base_image = codes "python:3.12-slim";
  http_example = record {
    entry_file = codes "app.py";
    entry_content =
        codes "from http.server import HTTPServer, BaseHTTPRequestHandler\n"
        ++ codes "\n"
        ++ codes "class Handler(BaseHTTPRequestHandler):\n"
        ++ codes "    def do_GET(self):\n"
        ++ codes "        self.send_response(200)\n"
        ++ codes "        self.end_headers()\n"
        ++ codes "        self.wfile.write(b\"ok\")\n"
        ++ codes "\n"
        ++ codes "HTTPServer((\"\", 8080), Handler).serve_forever()";
    dockerfile =
        codes "FROM python:3.12-slim\n"
        ++ codes "WORKDIR /app\n"
        ++ codes "COPY requirements.txt ./\n"
        ++ codes "RUN pip install --no-cache-dir -r requirements.txt\n"
        ++ codes "COPY . .\n"
        ++ codes "CMD [\"python\", \"app.py\"]";
  };
  cli_example = record {
    entry_file = codes "app.py";
    entry_content =
        codes "import argparse\n"
        ++ codes "\n"
        ++ codes "def main():\n"
        ++ codes "    parser = argparse.ArgumentParser()\n"
        ++ codes "    parser.add_argument(\"command\")\n"
        ++ codes "    args = parser.parse_args()\n"
        ++ codes "    print(f\"Hello from {args.command}\")\n"
        ++ codes "\n"
        ++ codes "if __name__ == \"__main__\":\n"
        ++ codes "    main()";
    dockerfile =
        codes "FROM python:3.12-slim\n"
        ++ codes "WORKDIR /app\n"
        ++ codes "COPY requirements.txt ./\n"
        ++ codes "RUN pip install --no-cache-dir -r requirements.txt\n"
        ++ codes "COPY . .\n"
        ++ codes "RUN ln -s /app/app.py /usr/local/bin/myapp && chmod +x /app/app.py";
  };
  tui_example = no_example;
  grpc_setup = codes "RUN pip install grpcio grpcio-tools";
  dep_rules =
      codes "- For Python: prefer standard library (http.server, argparse, json) "
      ++ codes "over third-party packages\n"
      ++ codes "- For Python: generate only requirements.txt; use \"pip install\" in the "
      ++ codes "Dockerfile";
}

abbrev pub node_template : LanguageTemplate
node_template = record {
  name = codes "Node.js";
  base_image = codes "node:22-alpine";
  http_example = record {
    entry_file = codes "index.js";
    entry_content =
        codes "const http = require(\"http\");\n"
        ++ codes "\n"
        ++ codes "const server = http.createServer((req, res) => {\n"
        ++ codes "  res.writeHead(200);\n"
        ++ codes "  res.end(\"ok\");\n"
        ++ codes "});\n"
        ++ codes "\n"
        ++ codes "server.listen(8080);";
    dockerfile =
        codes "FROM node:22-alpine\n"
        ++ codes "WORKDIR /app\n"
        ++ codes "COPY package.json ./\n"
        ++ codes "RUN npm install\n"
        ++ codes "COPY . .\n"
        ++ codes "CMD [\"node\", \"index.js\"]";
  };
  cli_example = record {
    entry_file = codes "index.js";
    entry_content =
        codes "const args = process.argv.slice(2);\n"
        ++ codes "if (args.length < 1) {\n"
        ++ codes "  console.error(\"usage: myapp <command>\");\n"
        ++ codes "  process.exit(1);\n"
        ++ codes "}\n"
        ++ codes "console.log(\"Hello from\", args[0]);";
    dockerfile =
        codes "FROM node:22-alpine\n"
        ++ codes "WORKDIR /app\n"
        ++ codes "COPY package.json ./\n"
        ++ codes "RUN npm install\n"
        ++ codes "COPY . .\n"
        ++ codes "RUN ln -s /app/index.js /usr/local/bin/myapp && chmod +x /app/index.js";
  };
  tui_example = no_example;
  grpc_setup = codes "RUN npm install @grpc/grpc-js @grpc/proto-loader";
  dep_rules =
      codes "- For Node.js: prefer built-in modules (http, fs, path, crypto) over "
      ++ codes "npm packages\n"
      ++ codes "- For Node.js: generate only package.json; use \"npm install\" in the "
      ++ codes "Dockerfile";
}

abbrev pub rust_template : LanguageTemplate
rust_template = record {
  name = codes "Rust";
  base_image = codes "rust:1.84-alpine";
  http_example = record {
    entry_file = codes "src/main.rs";
    entry_content =
        codes "use axum::{routing::get, Router};\n"
        ++ codes "\n"
        ++ codes "#[tokio::main]\n"
        ++ codes "async fn main() {\n"
        ++ codes "    let app = Router::new().route(\"/\", get(|| async { \"ok\" }));\n"
        ++ codes "    let listener = "
        ++ codes "tokio::net::TcpListener::bind(\"0.0.0.0:8080\").await.unwrap();\n"
        ++ codes "    axum::serve(listener, app).await.unwrap();\n"
        ++ codes "}";
    dockerfile =
        codes "FROM rust:1.84-alpine AS builder\n"
        ++ codes "RUN apk add --no-cache musl-dev\n"
        ++ codes "WORKDIR /app\n"
        ++ codes "COPY Cargo.toml ./\n"
        ++ codes "COPY src ./src\n"
        ++ codes "RUN cargo build --release\n"
        ++ codes "\n"
        ++ codes "FROM alpine:3.21\n"
        ++ codes "COPY --from=builder /app/target/release/myapp /usr/local/bin/\n"
        ++ codes "CMD [\"myapp\"]";
  };
  cli_example = record {
    entry_file = codes "src/main.rs";
    entry_content =
        codes "use std::env;\n"
        ++ codes "\n"
        ++ codes "fn main() {\n"
        ++ codes "    let args: Vec<String> = env::args().collect();\n"
        ++ codes "    if args.len() < 2 {\n"
        ++ codes "        eprintln!(\"usage: myapp <command>\");\n"
        ++ codes "        std::process::exit(1);\n"
        ++ codes "    }\n"
        ++ codes "    println!(\"Hello from {}\", args[1]);\n"
        ++ codes "}";
    dockerfile =
        codes "FROM rust:1.84-alpine AS builder\n"
        ++ codes "RUN apk add --no-cache musl-dev\n"
        ++ codes "WORKDIR /app\n"
        ++ codes "COPY Cargo.toml ./\n"
        ++ codes "COPY src ./src\n"
        ++ codes "RUN cargo build --release\n"
        ++ codes "\n"
        ++ codes "FROM alpine:3.21\n"
        ++ codes "COPY --from=builder /app/target/release/myapp /usr/local/bin/myapp";
  };
  tui_example = no_example;
  grpc_setup =
      codes "RUN apk add --no-cache protobuf-dev\n"
      ++ codes "# Add tonic-build to build.rs for protobuf compilation";
  dep_rules =
      codes "- For Rust: prefer standard library where possible\n"
      ++ codes "- For Rust: generate Cargo.toml with dependencies; use multi-stage "
      ++ codes "Dockerfile (builder + runtime)\n"
      ++ codes "- For Rust: do NOT generate Cargo.lock — let cargo resolve dependencies "
      ++ codes "at build time";
}

abbrev pub language_registry : Dict LanguageTemplate
language_registry =
    (codes "go", go_template)
    ∷ (codes "python", python_template)
    ∷ (codes "node", node_template)
    ∷ (codes "rust", rust_template)
    ∷ []
